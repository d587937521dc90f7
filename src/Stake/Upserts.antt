-- ===== src/Stake/Upserts.antt =====
-- What writing and deleting the stakes of one item does to the table.
use cost_x.Base.{
  ℕ, ◌≡◌, ap, ◌∙◌, inl, inr, false, not, ◌&&◌, none, List, [], ◌∷◌, arith, count, count_ext,
  count_never, ◌==◌, if◌then◌else◌, Bool-cases, Option-cases,
}
use cost_x.Prisma.{Prisma}
use cost_x.Schema.{Item, ItemStake, Db}
use cost_x.Transaction.{ok, through, pure, ◌>>=◌, ◌>>◌}
use cost_x.Delegate
use cost_x.Delegate.{create, connect}
use cost_x.Delegate.Laws.{create_lem, connect_lem, next_row}
use cost_x.Item.{is_stake_of}
use cost_x.Stake.Service.{
  MemberStake, is_member_stake, stake_in, revalued, create_or_update_by, create_or_update,
  bulk_create_or_update,
}

-- The stakes of other items are as before.
abbrev pub SameElsewhere : ℕ → List ItemStake → List ItemStake → Type 0
SameElsewhere item_id before after =
    (j : ℕ) → (j == item_id) ≡ false → count (is_stake_of j) after ≡ count (is_stake_of j) before

module _ ⦃prisma : Prisma⦄ where
  upserted :
      (item : Item) (stake : MemberStake) (db : Db) {s : ItemStake} {db' : Db}
      → create_or_update item stake db ≡ ok (s, db')
      → (db'.items ≡ db.items) × SameElsewhere item.id db.item_stakes db'.item_stakes
  unfolding create_or_update create_or_update_by
  upserted item stake db {s} {db'} h =
      let w = is_member_stake item.id stake.workspace_member_id in
      elim (Option-cases (prisma.find_first w db.item_stakes)) [
        | inl missing ↦
            let h' : create_or_update_by item stake none db ≡ ok (s, db') = rw (missing) at h in
            through (connect Delegate.item (λ i. i.id == item.id))
              (λ _.
                connect Delegate.workspace_member (λ m. m.id == stake.workspace_member_id)
                >> create Delegate.item_stake (stake_in item stake))
              db h'
              λ _ db1 connected r1.
                through (connect Delegate.workspace_member (λ m. m.id == stake.workspace_member_id))
                  (λ _. create Delegate.item_stake (stake_in item stake)) db1 r1
                  λ _ db2 connected' creates.
                    let same1 = connect_lem Delegate.item (λ i. i.id == item.id) db connected in
                    let same2 =
                      connect_lem Delegate.workspace_member (λ m. m.id == stake.workspace_member_id)
                        db1 connected' in
                    let same : db2 ≡ db = same2 ∙ same1 in
                    let (_, _, last) =
                      create_lem Delegate.item_stake (stake_in item stake) db
                        (rw (same) at creates) in
                    let row = next_row Delegate.item_stake (stake_in item stake) db in
                    (
                      ap (λ (d : Db). d.items) last,
                      λ j other. rw (last) (
                          ground (
                            arith,
                            other,
                            prisma.count-insert_row (is_stake_of j) row db.item_stakes,
                          )),
                    )
        | inr (old, found) ↦
            let last : db'
                ≡ record db { item_stakes = prisma.update_rows w (revalued stake) db.item_stakes } =
              ground (arith, found, h) in
            (
              ap (λ (d : Db). d.items) last,
              λ j other. rw (last) (
                  prisma.count-update_rows (is_stake_of j) w (revalued stake) db.item_stakes
                  ∙ count_ext (λ x. is_stake_of j (if w x then revalued stake x else x))
                      (is_stake_of j) db.item_stakes (λ x. ground arith)),
            )
      ]

  pub bulk_upserted :
      (item : Item) (stakes : List MemberStake) (db : Db) {rows : List ItemStake} {db' : Db}
      → bulk_create_or_update item stakes db ≡ ok (rows, db')
      → (db'.items ≡ db.items) × SameElsewhere item.id db.item_stakes db'.item_stakes
  unfolding bulk_create_or_update
  bulk_upserted item [] db {rows} {db'} h =
      let e : db' ≡ db = ground arith in
      (
        ap (λ (d : Db). d.items) e,
        λ j other. ap (λ (d : Db). count (is_stake_of j) d.item_stakes) e,
      )
  bulk_upserted item (stake ∷ stakes) db {rows} {db'} h =
      through (create_or_update item stake)
        (λ row. bulk_create_or_update item stakes >>= (λ others. pure (row ∷ others))) db h
        λ row db1 first r1.
          let (items1, same1) = upserted item stake db first in
          through (bulk_create_or_update item stakes) (λ others. pure (row ∷ others)) db1 r1
            λ others db2 later r2.
              let (items2, same2) = bulk_upserted item stakes db1 later in
              let e : db' ≡ db2 = ground arith in
              (
                ap (λ (d : Db). d.items) e ∙ items2 ∙ items1,
                λ j other.
                    ap (λ (d : Db). count (is_stake_of j) d.item_stakes) e
                    ∙ same2 j other
                    ∙ same1 j other,
              )

  pub deleted_elsewhere :
      (item_id : ℕ) (rows : List ItemStake)
      → SameElsewhere item_id rows (prisma.delete_rows (is_stake_of item_id) rows)
  deleted_elsewhere item_id rows j other =
      prisma.count-delete_rows (is_stake_of j) (is_stake_of item_id) rows
      ∙ count_ext (λ x. is_stake_of j x && not (is_stake_of item_id x)) (is_stake_of j) rows
          (λ x. apart x)
    where
      apart : (x : ItemStake) → (is_stake_of j x && not (is_stake_of item_id x)) ≡ is_stake_of j x
      apart x = elim (Bool-cases (x.item_id == j)) [
        | inl here ↦
            let e : x.item_id ≡ j = ground arith in
            let away : (x.item_id == item_id) ≡ false = rw (e) other in ground (arith, here, away)
        | inr away ↦ ground (arith, away)
      ]

  pub no_stakes_left :
      (item_id : ℕ) (rows : List ItemStake)
      → count (is_stake_of item_id) (prisma.delete_rows (is_stake_of item_id) rows) ≡ 0
  no_stakes_left item_id rows =
      prisma.count-delete_rows (is_stake_of item_id) (is_stake_of item_id) rows
      ∙ count_never (λ x. is_stake_of item_id x && not (is_stake_of item_id x)) rows
          (λ x. ground arith)
