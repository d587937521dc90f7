-- ===== src/Stake/Rules.antt =====
-- An item has a rule or stakes, never both.
use cost_x.Base.{
  ℕ, ◌≡◌, ◌⊎◌, refl, sym, ap, subst, ◌∙◌, inl, inr, Bool, true, false, not, ◌&&◌, none, some, List,
  [], ◌∷◌, arith, count, count_mono, count_never, bit, ltb, ◌==◌, is_none, if◌then◌else◌,
  Bool-cases,
}
use cost_x.Prisma.{Prisma}
use cost_x.Schema.{User, Item, ItemStake, StakeRule, Db}
use cost_x.Transaction.{ok, through}
use cost_x.Delegate
use cost_x.Delegate.{create, connect}
use cost_x.Delegate.Laws.{update_one_lem}
use cost_x.History.{Event}
use cost_x.History.Emitter.{EventEmitter}
use cost_x.History.Laws.{logged, emit_lem}
use cost_x.Item.{is_stake_of}
use cost_x.Membership.{list_active_by_workspace_id}
use cost_x.Stake.Numbers.{Numbers, Radash}
use cost_x.Stake.Service.{MemberStake, bulk_create_or_update, bulk_delete, get_by_item_id}
use cost_x.Stake.Override.{
  validate_stakes, remove_rule, without_rule, with_rule, is_rule, change_item_stake_rule,
  set_item_stake_rule, set_item_stakes,
}
use cost_x.Stake.Upserts.{SameElsewhere, bulk_upserted, deleted_elsewhere, no_stakes_left}

-- The item has a rule, and stakes too.
abbrev pub is_mixed : List ItemStake → Item → Bool
is_mixed stakes i = not (is_none i.stake_rule) && ltb 0 (count (is_stake_of i.id) stakes)

abbrev pub IsRuled : Db → Type 0
IsRuled db = count (is_mixed db.item_stakes) db.items ≡ 0

-- The item as it was read has a rule if the stored item has one.
abbrev pub IsCurrent : Item → Db → Type 0
IsCurrent item db =
    count (λ i. i.id == item.id && (is_none item.stake_rule && not (is_none i.stake_rule))) db.items
    ≡ 0

-- When the stakes of other items are as before and each changed item has no rule.
mixed_nowhere :
    (item_id : ℕ) (before after : List ItemStake) (items : List Item) (exception : Item → Bool)
    → SameElsewhere item_id before after
    → ((i : Item) → i.id ≡ item_id → is_mixed after i ≡ true → exception i ≡ true)
    → count exception items ≡ 0
    → count (is_mixed before) items ≡ 0
    → count (is_mixed after) items ≡ 0
unfolding count
mixed_nowhere item_id before after [] exception same here never h = refl
mixed_nowhere item_id before after (i ∷ items) exception same here never h =
    let rest =
      mixed_nowhere item_id before after items exception same here (omega (arith, never))
        (omega (arith, h)) in
    elim (Bool-cases (i.id == item_id)) [
      | inl is_it ↦
          let e : i.id ≡ item_id = ground arith in
          elim (Bool-cases (is_mixed after i)) [
            | inl bad ↦ absurd (ground (arith, never, here i e bad))
            | inr good ↦ ground (arith, good, rest)
          ]
      | inr other ↦
          let e = same i.id other in
          let e' : is_mixed after i ≡ is_mixed before i = rw (e) refl in
          let old : bit (is_mixed before i) ≡ 0 = omega (arith, h) in
          rw (e') (omega (arith, old, rest))
    ]

-- The items of one id lose their rule.
mixed_apart :
    (item_id : ℕ) (before after : List ItemStake) (items : List Item)
    → SameElsewhere item_id before after
    → count (is_mixed before) items ≡ 0
    → count (λ i. is_mixed after (if i.id == item_id then without_rule i else i)) items ≡ 0
unfolding count
mixed_apart item_id before after [] same h = refl
mixed_apart item_id before after (i ∷ items) same h =
    let rest = mixed_apart item_id before after items same (omega (arith, h)) in
    elim (Bool-cases (i.id == item_id)) [
      | inl is_it ↦ rw (is_it) (omega (arith, rest))
      | inr other ↦
          let e : is_mixed after i ≡ is_mixed before i = rw (same i.id other) refl in
          let old : bit (is_mixed before i) ≡ 0 = omega (arith, h) in
          rw (other, e) (omega (arith, old, rest))
    ]

module _ ⦃prisma : Prisma⦄ ⦃emitter : EventEmitter⦄ where
  change_lem :
      (item : Item) (rule : StakeRule) (user : User) (db : Db) {new : Item} {db' : Db}
      → change_item_stake_rule item rule user db ≡ ok (new, db')
      → (db'.items ≡ prisma.update_rows (λ i. i.id == item.id) (with_rule rule) db.items)
        × (db'.item_stakes ≡ prisma.delete_rows (is_stake_of item.id) db.item_stakes)
  unfolding change_item_stake_rule get_by_item_id bulk_delete
  change_lem item rule user db {new} {db'} h =
      let stakes = prisma.find_many (is_stake_of item.id) db.item_stakes in
      let e =
        Event.item_stakes_changed item.workspace_id user.id
          (record { item_id = item.id; stake_rule = item.stake_rule; stakes = some stakes })
          (record { item_id = item.id; stake_rule = new.stake_rule; stakes = none }) in
      let db1 : Db = record db {
        items = prisma.update_rows (λ i. i.id == item.id) (with_rule rule) db.items;
        item_stakes = prisma.delete_rows (is_stake_of item.id) db.item_stakes;
      } in
      let last : db' ≡ logged e db1 = grind (arith, emit_lem) in
      (ap (λ (d : Db). d.items) last, ap (λ (d : Db). d.item_stakes) last)

  -- Setting a rule keeps it so that no item has both a rule and stakes.
  pub set_item_stake_rule-IsRuled :
      (item : Item) (rule : StakeRule) (user : User) (db : Db) {new : Item} {db' : Db}
      → set_item_stake_rule item rule user db ≡ ok (new, db')
      → IsRuled db
      → IsRuled db'
  unfolding set_item_stake_rule
  set_item_stake_rule-IsRuled item rule user db {new} {db'} h ruled =
      elim (Bool-cases (is_rule item.stake_rule rule)) [
        | inl there ↦ let e : db' ≡ db = ground (arith, there, h) in subst IsRuled (sym e) ruled
        | inr another ↦
            let changes : change_item_stake_rule item rule user db ≡ ok (new, db') =
              rw (another) at h in
            let (items, stakes) = change_lem item rule user db changes in
            let w = λ (i : Item). i.id == item.id in
            let left = prisma.delete_rows (is_stake_of item.id) db.item_stakes in
            let none_left = no_stakes_left item.id db.item_stakes in
            let unchanged =
              mixed_nowhere item.id db.item_stakes left db.items (λ i. false)
                (deleted_elsewhere item.id db.item_stakes)
                (λ i e bad.
                  let e' : count (is_stake_of i.id) left ≡ 0 = rw (e) none_left in
                  ground (arith, bad, e'))
                (count_never (λ i. false) db.items (λ i. refl)) ruled in
            rw (items, stakes)
              (prisma.count-update_rows (is_mixed left) w (with_rule rule) db.items
                ∙ omega (
                  arith,
                  unchanged,
                  count_mono (λ i. is_mixed left (if w i then with_rule rule i else i))
                      (is_mixed left) db.items
                      (λ i bad. elim (Bool-cases (w i)) [
                        | inl here ↦
                            let e : i.id ≡ item.id = ground arith in
                            let e' : count (is_stake_of i.id) left ≡ 0 = rw (e) none_left in
                            absurd (ground (arith, here, bad, e'))
                        | inr away ↦ rw (away) at bad
                      ]),
                ))
      ]

module _ ⦃prisma : Prisma⦄ ⦃emitter : EventEmitter⦄ ⦃numbers : Numbers⦄ ⦃radash : Radash⦄ where
  validated :
      (item : Item) (stakes : List MemberStake) (db : Db) {db' : Db}
      → validate_stakes item stakes db ≡ ok (tt, db')
      → db' ≡ db
  unfolding validate_stakes list_active_by_workspace_id
  validated item stakes db h = ground arith

  removed_lem :
      (item : Item) (db : Db) {new : Item} {db' : Db}
      → remove_rule item db ≡ ok (new, db')
      → (db'.item_stakes ≡ db.item_stakes)
        × ((is_none item.stake_rule ≡ true × (db'.items ≡ db.items))
            ⊎ (db'.items ≡ prisma.update_rows (λ i. i.id == item.id) without_rule db.items))
  unfolding remove_rule
  removed_lem item db {new} {db'} h = elim (Bool-cases (is_none item.stake_rule)) [
    | inl no_rule ↦
        let e : db' ≡ db = ground (arith, no_rule, h) in
        (ap (λ (d : Db). d.item_stakes) e, inl (no_rule, ap (λ (d : Db). d.items) e))
    | inr ruled ↦
        let h' = rw (ruled) at h in
        let (_, last) = update_one_lem Delegate.item (λ i. i.id == item.id) without_rule db h' in
        (ap (λ (d : Db). d.item_stakes) last, inr (ap (λ (d : Db). d.items) last))
  ]

  -- Setting stakes for an item that was read as it is stored keeps it so that no item has both a
  -- rule and stakes.
  pub set_item_stakes-IsRuled :
      (item : Item) (stakes : List MemberStake) (user : User) (db : Db) {rows : List ItemStake}
      {db' : Db}
      → IsCurrent item db
      → set_item_stakes item stakes user db ≡ ok (rows, db')
      → IsRuled db
      → IsRuled db'
  unfolding set_item_stakes get_by_item_id
  set_item_stakes-IsRuled item stakes user db {rows} {db'} current h ruled =
      through (validate_stakes item stakes) _ db h λ _ db0 valid r0.
        let same0 = validated item stakes db valid in
        let old = prisma.find_many (is_stake_of item.id) db0.item_stakes in
        through (bulk_create_or_update item stakes) _ db0 r0 λ new db1 writes r1.
          let (items1, elsewhere1) = bulk_upserted item stakes db (rw (same0) at writes) in
          through (remove_rule item) _ db1 r1 λ updated db2 removes r2.
            let (stakes2, rules2) = removed_lem item db1 removes in
            let e =
              Event.item_stakes_changed item.workspace_id user.id
                (record { item_id = item.id; stake_rule = item.stake_rule; stakes = some old })
                (record {
                  item_id = item.id;
                  stake_rule = updated.stake_rule;
                  stakes = some new;
                }) in
            let last : db' ≡ logged e db2 = grind (arith, emit_lem) in
            let items' = ap (λ (d : Db). d.items) last in
            let stakes' = ap (λ (d : Db). d.item_stakes) last ∙ stakes2 in
            let w = λ (i : Item). i.id == item.id in
            let after = db1.item_stakes in
            elim rules2 [
              | inl (no_rule, items2) ↦
                  rw (stakes', items' ∙ items2 ∙ items1)
                    (mixed_nowhere item.id db.item_stakes after db.items
                      (λ i. w i && (is_none item.stake_rule && not (is_none i.stake_rule)))
                      elsewhere1
                      (λ i is_it bad.
                        let here : w i ≡ true = ground arith in ground (arith, here, no_rule, bad))
                      current ruled)
              | inr items2 ↦
                  rw (stakes', items' ∙ items2, items1)
                    (prisma.count-update_rows (is_mixed after) w without_rule db.items
                      ∙ mixed_apart item.id db.item_stakes after db.items elsewhere1 ruled)
            ]

  -- One of the two mutations, which comes through; the item is as it was read.
  pub data StakeMutation : Db → Db → Type 0 where
    sets_rule :
        {db db' : Db} (item : Item) (rule : StakeRule) (user : User) {new : Item}
        → set_item_stake_rule item rule user db ≡ ok (new, db')
        → StakeMutation db db'
    sets_stakes :
        {db db' : Db} (item : Item) (stakes : List MemberStake) (user : User)
        {rows : List ItemStake}
        → IsCurrent item db
        → set_item_stakes item stakes user db ≡ ok (rows, db')
        → StakeMutation db db'

  pub data StakeMutations : Db → Db → Type 0 where
    rest : {db : Db} → StakeMutations db db
    next :
        {db between db' : Db}
        → StakeMutation db between
        → StakeMutations between db'
        → StakeMutations db db'

  -- From tables where no item has both a rule and stakes, setting rules and stakes of items, in any
  -- order, leads to such tables again.
  pub stake_mutations-IsRuled : {db db' : Db} → StakeMutations db db' → IsRuled db → IsRuled db'
  stake_mutations-IsRuled rest ruled = ruled
  stake_mutations-IsRuled {db} (next (sets_rule item rule user h) steps) ruled =
      stake_mutations-IsRuled steps (set_item_stake_rule-IsRuled item rule user db h ruled)
  stake_mutations-IsRuled {db} (next (sets_stakes item stakes user current h) steps) ruled =
      stake_mutations-IsRuled steps (set_item_stakes-IsRuled item stakes user db current h ruled)
