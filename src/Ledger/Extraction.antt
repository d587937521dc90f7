-- ===== src/Ledger/Extraction.antt =====
-- An extraction keeps the invariant: the payments that it moves are payments of the source, and the
-- tags that it copies are tags of its workspace.
use cost_x.Base.{
  ℕ, ◌≡◌, refl, sym, ap, subst, ◌∙◌, Bool, true, false, not, List, [], ◌∷◌, map, some, arith, count,
  ◌==◌, ◌&&◌, String, count_mono,
}
use cost_x.Prisma.{Prisma}
use cost_x.Schema.{User, Item, ItemTag, Db}
use cost_x.Transaction.{ok, through}
use cost_x.Delegate
use cost_x.Delegate.{create, create_many}
use cost_x.Delegate.Laws.{create_lem, next_row}
use cost_x.History.{Event}
use cost_x.History.Emitter.{EventEmitter}
use cost_x.History.Laws.{logged, emit_lem}
use cost_x.Item.{
  extract_as_item, new_item, new_tag, is_listed_payment, is_tag_of, moved_to, copy_tags,
  validate_extract,
}
use cost_x.Item.Extracted.{extract_is_valid}
use cost_x.Ledger.Places.{stored_place}
use cost_x.Ledger.References.{is_torn, is_same, insert-IsWhole}
use cost_x.Ledger.Invariant.{IsKept, IsKeptBy, Places, HasItem}
use cost_x.Ledger.Rows.{logged-IsKept}
use cost_x.Ledger.Listed.{is_foreign, validated_none_foreign}
use cost_x.Ledger.Effects.{created_item-IsKept, moved-IsKept}

-- A use of a tag that an item of that workspace may not have.
abbrev is_misplaced : Places → ℕ → ItemTag → Bool
is_misplaced at item_id t = not (is_same (at.item item_id) (at.tag t.tag_id))

module _ ⦃prisma : Prisma⦄ where
  copied-IsKeptBy :
      (at : Places) (item_id : ℕ) (tags : List ItemTag) (db : Db) {db' : Db}
      → create_many Delegate.item_tag (map (new_tag item_id) tags) db ≡ ok (tt, db')
      → count (is_misplaced at item_id) tags ≡ 0
      → IsKeptBy at db
      → IsKeptBy at db'
  unfolding create_many count
  copied-IsKeptBy at item_id [] db {db'} h good kept =
      let e : db' ≡ db = ground arith in subst (IsKeptBy at) (sym e) kept
  copied-IsKeptBy at item_id (t ∷ ts) db h good kept =
      through (create Delegate.item_tag (new_tag item_id t))
        (λ _. create_many Delegate.item_tag (map (new_tag item_id) ts)) db h
        λ row between made rest.
          let (_, _, last) = create_lem Delegate.item_tag (new_tag item_id t) db made in
          let new = next_row Delegate.item_tag (new_tag item_id t) db in
          let here : is_misplaced at item_id t ≡ false = ground arith in
          let later : count (is_misplaced at item_id) ts ≡ 0 = omega (arith, good) in
          let kept1 : IsKeptBy at (record db { item_tags = prisma.insert_row new db.item_tags }) =
            record {
              items = kept.items;
              tags = kept.tags;
              members = kept.members;
              payments = kept.payments;
              item_tags =
                  insert-IsWhole (λ (x : ItemTag). x.item_id) (λ x. x.tag_id) at.item at.tag
                    db.item_tags new here kept.item_tags;
              unique = kept.unique;
            } in
          copied-IsKeptBy at item_id ts between rest later (subst (IsKeptBy at) (sym last) kept1)

  tags_copied-IsKeptBy :
      (at : Places) (item_id : ℕ) (tags : List ItemTag) (db : Db) {db' : Db}
      → copy_tags item_id tags db ≡ ok (tt, db')
      → count (is_misplaced at item_id) tags ≡ 0
      → IsKeptBy at db
      → IsKeptBy at db'
  unfolding copy_tags
  tags_copied-IsKeptBy at item_id [] db {db'} h good kept =
      let e : db' ≡ db = ground arith in subst (IsKeptBy at) (sym e) kept
  tags_copied-IsKeptBy at item_id (t ∷ ts) db h good kept =
      copied-IsKeptBy at item_id (t ∷ ts) db h good kept

  -- The tags of an item are tags that another item of the workspace may have.
  none_misplaced :
      (at : Places) (source target : ℕ) (db : Db)
      → at.item source ≡ at.item target
      → IsKeptBy at db
      → count (is_misplaced at target) (prisma.find_many (is_tag_of source) db.item_tags) ≡ 0
  none_misplaced at source target db same kept =
      let torn = is_torn (λ (x : ItemTag). x.item_id) (λ x. x.tag_id) at.item at.tag in
      omega (
        arith,
        kept.item_tags,
        prisma.count-find_many (is_misplaced at target) (is_tag_of source) db.item_tags,
        count_mono (λ x. is_tag_of source x && is_misplaced at target x) torn db.item_tags
            (λ x both.
              let e : x.item_id ≡ source = ground arith in
              let bad : is_misplaced at target x ≡ true = ground arith in rw (e, same) bad),
      )

  -- Both items are in the table after the new one has come.
  new_there :
      (source row : Item) (db : Db)
      → HasItem source db
      → HasItem row (record db { items = prisma.insert_row row db.items })
        × HasItem source (record db { items = prisma.insert_row row db.items })
  new_there source row db there = (
    ground (
      arith,
      prisma.count-insert_row (λ i. i.id == row.id && i.workspace_id == row.workspace_id) row
          db.items,
    ),
    omega (
      arith,
      there,
      prisma.count-insert_row (λ i. i.id == source.id && i.workspace_id == source.workspace_id) row
          db.items,
    ),
  )

module _ ⦃prisma : Prisma⦄ ⦃emitter : EventEmitter⦄ where
  pub extract_as_item-IsKept :
      (source : Item) (ids : List ℕ) (title : String) (user : User) (db : Db) {item : Item}
      {db' : Db}
      → HasItem source db
      → extract_as_item source ids title user db ≡ ok (item, db')
      → IsKept db
      → IsKept db'
  unfolding extract_as_item
  extract_as_item-IsKept source ids title user db {item} {db'} there h (at, kept) =
      through (validate_extract source ids) _ db h λ _ db0 valid r0.
        let e0 = extract_is_valid source ids db valid in
        let make = new_item title source.workspace_id in
        through (create Delegate.item make) _ db0 r0 λ made db1 creates r1.
          let creates' = rw (e0) at creates in
          let (e1, _, last1) = create_lem Delegate.item make db creates' in
          let kept1 = created_item-IsKept make db (λ k. refl) creates' (at, kept) in
          let payments1 : db1.payments ≡ db.payments = ap (λ (d : Db). d.payments) last1 in
          let never : count (is_foreign source.id ids) db1.payments ≡ 0 =
            rw (payments1) (validated_none_foreign source ids db kept.unique valid) in
          let (new, old) = new_there source (next_row Delegate.item make db) db there in
          let old1 = subst (HasItem source) (sym last1) old in
          let new1 : HasItem made db1 =
            rw (e1) (subst (HasItem (next_row Delegate.item make db)) (sym last1) new) in
          let same : source.workspace_id ≡ made.workspace_id =
            sym (ap (λ (i : Item). i.workspace_id) e1) in
          let w = is_listed_payment ids in
          let (at2, kept2) =
            moved-IsKept w (is_foreign source.id ids) source made db1 never
              (λ p here even. ground (arith, here, even)) old1 new1 same kept1 in
          let db2 : Db = record db1 {
            payments = prisma.update_rows w (moved_to made) db1.payments;
          } in
          let at_source =
            stored_place (λ (i : Item). i.id) (λ i. i.workspace_id) at2.item db2.items source.id
              source.workspace_id kept2.items old1 in
          let at_made =
            stored_place (λ (i : Item). i.id) (λ i. i.workspace_id) at2.item db2.items made.id
              made.workspace_id kept2.items new1 in
          let tags = prisma.find_many (is_tag_of source.id) db2.item_tags in
          through (copy_tags made.id tags) _ db2 r1 λ _ db3 copies r3.
            let kept3 =
              tags_copied-IsKeptBy at2 made.id tags db2 copies
                (none_misplaced at2 source.id made.id db2 (at_source ∙ ap some same ∙ sym at_made)
                  kept2)
                kept2 in
            let e = Event.item_extracted source.workspace_id user.id source made in
            let last : db' ≡ logged e db3 = grind (arith, emit_lem) in
            subst IsKept (sym last) (logged-IsKept e db3 (at2, kept3))
