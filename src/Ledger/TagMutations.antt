-- ===== src/Ledger/TagMutations.antt =====
-- The mutations of tags and their uses keep the invariant.
use cost_x.Base.{ℕ, ◌≡◌, sym, subst, true, arith, ◌==◌, inl, inr, Option-cases}
use cost_x.Prisma.{Prisma}
use cost_x.Schema.{User, Item, Tag, ItemTag, Db}
use cost_x.Transaction.{ok}
use cost_x.Delegate
use cost_x.Delegate.{create, connect, find_or_throw}
use cost_x.Delegate.Laws.{next_row}
use cost_x.History.{Event}
use cost_x.History.Emitter.{EventEmitter}
use cost_x.History.Laws.{logged, emit_lem}
use cost_x.Item.{ensure_is_belonging}
use cost_x.Tag.{
  TagInDto, create_tag, update_tag, delete_tag, delete_tag_row, tag_in, repainted, assign_tag,
  unassign_tag, is_item_tag, item_tag_in, is_use_of,
}
use cost_x.Ledger.Places.{stored_place}
use cost_x.Ledger.References.{is_same, insert-IsWhole}
use cost_x.Ledger.Invariant.{IsKept, IsKeptBy, Places, HasItem, HasTag}
use cost_x.Ledger.Rows.{
  logged-IsKept, item_tags-IsKept, delete_item_tags-IsKept, insert_tag-IsKept, repaint_tag-IsKept,
  remove_tag-IsKept,
}
use cost_x.Ledger.Mutations.{same_place-is_same}

item_with_tag :
    (at : Places) (db : Db) (item : Item) (tag : Tag)
    → IsKeptBy at db
    → HasItem item db
    → HasTag tag db
    → item.workspace_id ≡ tag.workspace_id
    → is_same (at.item item.id) (at.tag tag.id) ≡ true
item_with_tag at db item tag kept item_there tag_there same =
    let at_item =
      stored_place (λ (i : Item). i.id) (λ i. i.workspace_id) at.item db.items item.id
        item.workspace_id kept.items item_there in
    let at_tag =
      stored_place (λ (t : Tag). t.id) (λ t. t.workspace_id) at.tag db.tags tag.id tag.workspace_id
        kept.tags tag_there in
    rw (at_item, at_tag, same) (same_place-is_same tag.workspace_id)

module _ ⦃prisma : Prisma⦄ ⦃emitter : EventEmitter⦄ where
  pub create_tag-IsKept :
      (workspace_id : ℕ) (dto : TagInDto) (user : User) (db : Db) {tag : Tag} {db' : Db}
      → create_tag workspace_id dto user db ≡ ok (tag, db')
      → IsKept db
      → IsKept db'
  unfolding create_tag create
  create_tag-IsKept workspace_id dto user db {tag} {db'} h kept =
      let row = next_row Delegate.tag (tag_in workspace_id dto) db in
      let db1 : Db = record db { tags = prisma.insert_row row db.tags } in
      let e = Event.tag_created workspace_id user.id row in
      let last : db' ≡ logged e db1 = grind (arith, emit_lem) in
      subst IsKept (sym last) (
        logged-IsKept e db1
          (insert_tag-IsKept row db (prisma.next_id_fresh (λ (t : Tag). t.id) db.tags) kept))

  pub update_tag-IsKept :
      (id : ℕ) (dto : TagInDto) (user : User) (db : Db) {tag : Tag} {db' : Db}
      → update_tag id dto user db ≡ ok (tag, db')
      → IsKept db
      → IsKept db'
  unfolding update_tag
  update_tag-IsKept id dto user db {tag} {db'} h kept =
      let w = λ (t : Tag). t.id == id in
      let db1 : Db = record db { tags = prisma.update_rows w (repainted dto) db.tags } in
      elim (Option-cases (prisma.find_first w db.tags)) [
        | inl missing ↦ absurd (ground arith)
        | inr (old, found) ↦
            let e = Event.tag_updated old.workspace_id user.id old tag in
            let last : db' ≡ logged e db1 = grind (arith, emit_lem) in
            subst IsKept (sym last) (logged-IsKept e db1 (repaint_tag-IsKept w dto db kept))
      ]

  pub delete_tag-IsKept :
      (id : ℕ) (user : User) (db : Db) {db' : Db}
      → delete_tag id user db ≡ ok (tt, db')
      → IsKept db
      → IsKept db'
  unfolding delete_tag delete_tag_row
  delete_tag-IsKept id user db {db'} h kept =
      let w = λ (t : Tag). t.id == id in
      let db1 : Db = record db {
        tags = prisma.delete_rows w db.tags;
        item_tags = prisma.delete_rows (is_use_of id) db.item_tags;
      } in
      elim (Option-cases (prisma.find_first w db.tags)) [
        | inl missing ↦ absurd (ground arith)
        | inr (old, found) ↦
            let e = Event.tag_deleted old.workspace_id user.id old in
            let last : db' ≡ logged e db1 = grind (arith, emit_lem) in
            subst IsKept (sym last) (logged-IsKept e db1 (remove_tag-IsKept id db kept))
      ]

  pub assign_tag-IsKept :
      (item : Item) (tag : Tag) (user : User) (db : Db) {item_tag : ItemTag} {db' : Db}
      → HasItem item db
      → HasTag tag db
      → assign_tag item tag user db ≡ ok (item_tag, db')
      → IsKept db
      → IsKept db'
  unfolding assign_tag ensure_is_belonging create
  assign_tag-IsKept item tag user db {item_tag} {db'} item_there tag_there h kept =
      let same : item.workspace_id ≡ tag.workspace_id = ground arith in
      let row = next_row Delegate.item_tag (item_tag_in item tag) db in
      let db1 : Db = record db { item_tags = prisma.insert_row row db.item_tags } in
      let e = Event.item_tag_assigned item.workspace_id user.id row in
      let last : db' ≡ logged e db1 = grind (arith, emit_lem) in
      let kept1 =
        item_tags-IsKept (prisma.insert_row row db.item_tags) db
          (λ at k.
            insert-IsWhole (λ (x : ItemTag). x.item_id) (λ x. x.tag_id) at.item at.tag db.item_tags
              row (ground (arith, item_with_tag at db item tag k item_there tag_there same))
              k.item_tags)
          kept in
      subst IsKept (sym last) (logged-IsKept e db1 kept1)

  pub unassign_tag-IsKept :
      (item : Item) (tag : Tag) (user : User) (db : Db) {db' : Db}
      → unassign_tag item tag user db ≡ ok (tt, db')
      → IsKept db
      → IsKept db'
  unfolding unassign_tag ensure_is_belonging
  unassign_tag-IsKept item tag user db {db'} h kept =
      let w = is_item_tag item.id tag.id in
      let db1 : Db = record db { item_tags = prisma.delete_rows w db.item_tags } in
      elim (Option-cases (prisma.find_first w db.item_tags)) [
        | inl missing ↦ absurd (ground arith)
        | inr (old, found) ↦
            let e = Event.item_tag_unassigned item.workspace_id user.id old in
            let last : db' ≡ logged e db1 = grind (arith, emit_lem) in
            subst IsKept (sym last) (logged-IsKept e db1 (delete_item_tags-IsKept w db kept))
      ]
