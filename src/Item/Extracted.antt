-- ===== src/Item/Extracted.antt =====
-- What extracting payments as an item of their own does to the payments.
use cost_x.Base.{
  ℕ, ◌+◌, String, ◌≡◌, sym, ap, ◌∙◌, Bool, List, [], ◌∷◌, map, arith, count, bit, ◌==◌,
  if◌then◌else◌,
}
use cost_x.Prisma.{Prisma}
use cost_x.Schema.{User, Item, Payment, ItemTag, Db}
use cost_x.Transaction.{ok, through}
use cost_x.Delegate
use cost_x.Delegate.{create, create_many, update_many}
use cost_x.Delegate.Laws.{create_lem, next_row}
use cost_x.History.Emitter.{EventEmitter}
use cost_x.History.Laws.{emit_lem}
use cost_x.Item.Merge.{is_tag_of, moved_to}
use cost_x.Item.Extract.{
  has_id, is_listed_payment, new_item, new_tag, validate_extract, copy_tags, extract_as_item,
}

module _ ⦃prisma : Prisma⦄ where
  pub extract_is_valid :
      (item : Item) (ids : List ℕ) (db : Db) {db' : Db}
      → validate_extract item ids db ≡ ok (tt, db')
      → db' ≡ db
  unfolding validate_extract
  extract_is_valid item ids db h = ground arith

  -- Copying tags writes tags only.
  copied :
      (item_id : ℕ) (tags : List ItemTag) (db : Db) {db' : Db}
      → create_many Delegate.item_tag (map (new_tag item_id) tags) db ≡ ok (tt, db')
      → (db'.payments ≡ db.payments) × (db'.items ≡ db.items)
  unfolding create_many
  copied item_id [] db h = (ground arith, ground arith)
  copied item_id (t ∷ ts) db h =
      through (create Delegate.item_tag (new_tag item_id t))
        (λ _. create_many Delegate.item_tag (map (new_tag item_id) ts)) db h
        λ row between made rest.
          let (_, _, last) = create_lem Delegate.item_tag (new_tag item_id t) db made in
          let (payments, items) = copied item_id ts between rest in
          (payments ∙ ap (λ (d : Db). d.payments) last, items ∙ ap (λ (d : Db). d.items) last)

  tags_copied :
      (item_id : ℕ) (tags : List ItemTag) (db : Db) {db' : Db}
      → copy_tags item_id tags db ≡ ok (tt, db')
      → (db'.payments ≡ db.payments) × (db'.items ≡ db.items)
  unfolding copy_tags
  tags_copied item_id [] db h = (ground arith, ground arith)
  tags_copied item_id (t ∷ ts) db h = copied item_id (t ∷ ts) db h

-- The payments of the list are those of the new item.
abbrev pub extracted : Item → List ℕ → Payment → Payment
extracted item ids p = if has_id ids p.id then moved_to item p else p

-- What an extraction has done.
pub record Extracted (source item : Item) (ids : List ℕ) (db db' : Db) : Type 0 where
  pub same_workspace : item.workspace_id ≡ source.workspace_id
  pub is_new : count (λ (i : Item). i.id == item.id) db.items ≡ 0
  pub items : (q : Item → Bool) → count q db'.items ≡ bit (q item) + count q db.items
  pub payments :
      (q : Payment → Bool)
      → count q db'.payments ≡ count (λ p. q (extracted item ids p)) db.payments

module _ ⦃prisma : Prisma⦄ ⦃emitter : EventEmitter⦄ where
  -- When an extraction comes through, the new item is of the workspace of its source, its id was
  -- free, and it is the one item that has been added; the payments are those of before, where the
  -- payments of the list are the new item's.
  pub extract_as_item-Extracted :
      (source : Item) (ids : List ℕ) (title : String) (user : User) (db : Db) {item : Item}
      {db' : Db}
      → extract_as_item source ids title user db ≡ ok (item, db')
      → Extracted source item ids db db'
  unfolding extract_as_item
  extract_as_item-Extracted source ids title user db {item} {db'} h =
      through (validate_extract source ids) _ db h λ _ db0 valid r0.
        let e0 = extract_is_valid source ids db valid in
        let make = new_item title source.workspace_id in
        through (create Delegate.item make) _ db0 r0 λ made db1 creates r1.
          let (e1, _, last1) = create_lem Delegate.item make db (rw (e0) at creates) in
          let w = is_listed_payment ids in
          let db2 : Db = record db1 {
            payments = prisma.update_rows w (moved_to made) db1.payments;
          } in
          let tags = prisma.find_many (is_tag_of source.id) db2.item_tags in
          through (copy_tags made.id tags) _ db2 r1 λ _ db3 copies r3.
            let (payments, items) = tags_copied made.id tags db2 copies in
            let same : item ≡ made = grind (arith, emit_lem) in
            let payments' : db'.payments ≡ db3.payments = grind (arith, emit_lem) in
            let items' : db'.items ≡ db3.items = grind (arith, emit_lem) in
            let row = next_row Delegate.item make db in
            let is_row : item ≡ row = same ∙ e1 in
            let all_items : db'.items ≡ prisma.insert_row row db.items =
              items' ∙ items ∙ ap (λ (d : Db). d.items) last1 in
            let all_payments : db'.payments ≡ prisma.update_rows w (moved_to item) db.payments =
              payments'
              ∙ payments
              ∙ ap (λ (d : Db). prisma.update_rows w (moved_to made) d.payments) last1
              ∙ ap (λ (i : Item). prisma.update_rows w (moved_to i) db.payments) (sym same) in
            record {
              same_workspace = ap (λ (i : Item). i.workspace_id) is_row;
              is_new = rw (is_row) (prisma.next_id_fresh (λ (i : Item). i.id) db.items);
              items = λ q. rw (all_items, is_row) (prisma.count-insert_row q row db.items);
              payments =
                  λ q. rw (all_payments) (prisma.count-update_rows q w (moved_to item) db.payments);
            }
