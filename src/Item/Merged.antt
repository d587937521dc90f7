-- ===== src/Item/Merged.antt =====
-- What a merge of two items does to the payments, the tags and the items.
use cost_x.Base.{
  ◌≡◌, ◌∙◌, Bool, false, not, ◌&&◌, Option, some, none, List, arith, count, count_ext, count_never,
  ◌==◌, if◌then◌else◌,
}
use cost_x.Prisma.{Prisma}
use cost_x.Schema.{User, Item, Payment, ItemTag, Db}
use cost_x.Transaction.{ok}
use cost_x.History.{Event}
use cost_x.History.Emitter.{EventEmitter}
use cost_x.History.Laws.{emit_lem, logged}
use cost_x.Item.Consistency.{ensure_is_belonging}
use cost_x.Item.Merge.{
  merge, delete_item_row, is_payment_of, is_untitled_of, is_tag_of, is_stake_of, titled, moved_to,
}

-- A payment of the merged item goes to the host, and an untitled one takes the title of its item.
abbrev pub moved : Item → Item → Payment → Payment
moved host merging p =
    if p.item_id == merging.id
    then record p {
      item_id = host.id;
      title = elim p.title [ none ↦ some merging.title | some t ↦ some t ];
    }
    else p

module _ ⦃prisma : Prisma⦄ where
  -- The payments after the two updates, and after the merged item has gone.
  abbrev payments_moved : Item → Item → List Payment → List Payment
  payments_moved host merging rows =
      prisma.update_rows (is_payment_of merging.id) (moved_to host)
        (prisma.update_rows (is_untitled_of merging.id) (titled merging) rows)

  abbrev merged : Item → Item → Db → Db
  merged host merging db = record db {
    payments =
        prisma.delete_rows (is_payment_of merging.id) (payments_moved host merging db.payments);
    item_tags =
        prisma.delete_rows (is_tag_of merging.id)
          (prisma.delete_rows (is_tag_of merging.id) db.item_tags);
    items = prisma.delete_rows (λ (i : Item). i.id == merging.id) db.items;
    item_stakes = prisma.delete_rows (is_stake_of merging.id) db.item_stakes;
  }

  payments-count :
      (q : Payment → Bool) (host merging : Item) (rows : List Payment)
      → count q (payments_moved host merging rows) ≡ count (λ p. q (moved host merging p)) rows
  payments-count q host merging rows =
      let w = is_payment_of merging.id in
      let f = moved_to host in
      prisma.count-update_rows q w f
        (prisma.update_rows (is_untitled_of merging.id) (titled merging) rows)
      ∙ prisma.count-update_rows (λ p. q (if w p then f p else p)) (is_untitled_of merging.id)
          (titled merging) rows
      ∙ count_ext _ (λ p. q (moved host merging p)) rows (λ p. same q host merging p)
    where
      same :
          (q : Payment → Bool) (host merging : Item) (p : Payment)
          → q (
              if is_payment_of merging.id
                (if is_untitled_of merging.id p then titled merging p else p)
              then moved_to host (if is_untitled_of merging.id p then titled merging p else p)
              else (if is_untitled_of merging.id p then titled merging p else p))
            ≡ q (moved host merging p)
      same q host merging p = ground arith

-- What a merge has done.
pub record Merged (host merging : Item) (result : Option Item) (db db' : Db) : Type 0 where
  pub same_workspace : host.workspace_id ≡ merging.workspace_id
  -- The payments are those of before, moved: none is lost and none is new.
  pub payments :
      (q : Payment → Bool)
      → count q db'.payments ≡ count (λ p. q (moved host merging p)) db.payments
  pub tags :
      (q : ItemTag → Bool)
      → count q db'.item_tags ≡ count (λ t. q t && not (is_tag_of merging.id t)) db.item_tags
  pub items :
      (q : Item → Bool) → count q db'.items ≡ count (λ i. q i && not (i.id == merging.id)) db.items

module _ ⦃prisma : Prisma⦄ ⦃emitter : EventEmitter⦄ where
  merge_lem :
      (host merging : Item) (user : User) (db : Db) {result : Option Item} {db' : Db}
      → merge host merging user db ≡ ok (result, db')
      → (host.workspace_id ≡ merging.workspace_id)
        × (db'
            ≡ logged
                (Event.item_merged host.workspace_id user.id host merging result)
                (merged host merging db))
  unfolding merge delete_item_row ensure_is_belonging
  merge_lem host merging user db h = (ground arith, grind (arith, emit_lem))

  -- When merging two different items comes through, they are of one workspace; the payments are
  -- those of before, where a payment of the merged item is the host's now and has the title of the
  -- merged item if it had none; the merged item and its tags are gone, and all other items and tags
  -- count as before.
  pub merge-Merged :
      (host merging : Item) (user : User) (db : Db) {result : Option Item} {db' : Db}
      → (host.id == merging.id) ≡ false
      → merge host merging user db ≡ ok (result, db')
      → Merged host merging result db db'
  merge-Merged host merging user db apart h =
      let (same, last) = merge_lem host merging user db h in
      let w = is_payment_of merging.id in
      let t = is_tag_of merging.id in
      record {
        same_workspace = same;
        payments = λ q. rw (last) (
            omega (
              arith,
              prisma.count-delete_rows q w (payments_moved host merging db.payments),
              payments-count (λ p. q p && not (w p)) host merging db.payments,
              count_ext (λ p. q (moved host merging p) && not (w (moved host merging p)))
                  (λ p. q (moved host merging p)) db.payments (λ p. ground (arith, apart)),
            ));
        tags = λ q. rw (last) (
            omega (
              arith,
              prisma.count-delete_rows q t (prisma.delete_rows t db.item_tags),
              prisma.count-delete_rows (λ x. q x && not (t x)) t db.item_tags,
              count_ext (λ x. (q x && not (t x)) && not (t x)) (λ x. q x && not (t x)) db.item_tags
                  (λ x. ground arith),
            ));
        items =
            λ q. rw (last) (prisma.count-delete_rows q (λ (i : Item). i.id == merging.id) db.items);
      }

  -- Merging an item with itself, when it comes through, leaves neither the item nor any payment of
  -- it.
  pub merge_itself :
      (item : Item) (user : User) (db : Db) {result : Option Item} {db' : Db}
      → merge item item user db ≡ ok (result, db')
      → (count (λ (i : Item). i.id == item.id) db'.items ≡ 0)
        × (count (is_payment_of item.id) db'.payments ≡ 0)
  merge_itself item user db h =
      let last = (merge_lem item item user db h).1 in
      let w = is_payment_of item.id in
      let same = λ (i : Item). i.id == item.id in
      (
        rw (last) (
            omega (
              arith,
              prisma.count-delete_rows same same db.items,
              count_never (λ i. same i && not (same i)) db.items (λ i. ground arith),
            )),
        rw (last) (
            omega (
              arith,
              prisma.count-delete_rows w w (payments_moved item item db.payments),
              count_never (λ p. w p && not (w p)) (payments_moved item item db.payments)
                  (λ p. ground arith),
            )),
      )
