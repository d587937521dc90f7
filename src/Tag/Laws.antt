-- ===== src/Tag/Laws.antt =====
-- A tag is on an item at most once, and taking it off undoes putting it on.
use cost_x.Base.{
  true, ◌≡◌, ◌<◌, ap, Bool, not, some, arith, count, count_mono, count_split, ◌&&◌, Option-cases,
  inl, inr,
}
use cost_x.Prisma.{Prisma}
use cost_x.Schema.{User, Item, Tag, ItemTag, Db}
use cost_x.Transaction.{ok, err, bad_request}
use cost_x.Delegate
use cost_x.Delegate.{create}
use cost_x.Delegate.Laws.{next_row}
use cost_x.History.{may_record, Event}
use cost_x.History.Emitter.{EventEmitter}
use cost_x.History.Laws.{logged, emit_lem}
use cost_x.Item.{ensure_is_belonging}
use cost_x.Tag.Assignment.{assign_tag, unassign_tag, is_item_tag, item_tag_in}

module _ ⦃prisma : Prisma⦄ ⦃emitter : EventEmitter⦄ where
  -- An assignment that comes through: the workspaces are the same, the item did not have the tag,
  -- and one row has come.
  assign_tag_lem :
      (item : Item) (tag : Tag) (user : User) (db : Db) {t : ItemTag} {db' : Db}
      → assign_tag item tag user db ≡ ok (t, db')
      → (item.workspace_id ≡ tag.workspace_id)
        × (count (is_item_tag item.id tag.id) db.item_tags ≡ 0)
        × (db'
            ≡ logged
                (Event.item_tag_assigned item.workspace_id user.id
                  (next_row Delegate.item_tag (item_tag_in item tag) db))
                (record db {
                  item_tags =
                      prisma.insert_row
                        (next_row Delegate.item_tag (item_tag_in item tag) db)
                        db.item_tags;
                }))
        × (may_record user.id item.workspace_id db ≡ true)
  unfolding assign_tag ensure_is_belonging create
  assign_tag_lem item tag user db h =
      let w = is_item_tag item.id tag.id in
      elim (Option-cases (prisma.find_first w db.item_tags)) [
        | inl free ↦ (
          ground arith,
          prisma.find_first_none w db.item_tags free,
          grind (arith, emit_lem),
          grind (arith, emit_lem),
        )
        | inr (old, found) ↦ absurd (ground arith)
      ]

  -- What is there is found.
  find_stored :
      (w : ItemTag → Bool) (db : Db)
      → 0 < count w db.item_tags
      → (t : ItemTag) × (prisma.find_first w db.item_tags ≡ some t)
  find_stored w db there = elim (Option-cases (prisma.find_first w db.item_tags)) [
    | inl missing ↦ absurd (omega (arith, there, prisma.find_first_none w db.item_tags missing))
    | inr (t, found) ↦ (t, found)
  ]

  unassign_stored :
      (item : Item) (tag : Tag) (user : User) (db : Db)
      → item.workspace_id ≡ tag.workspace_id
      → 0 < count (is_item_tag item.id tag.id) db.item_tags
      → may_record user.id item.workspace_id db ≡ true
      → (t : ItemTag) × (unassign_tag item tag user db
          ≡ ok (
            tt,
            logged (Event.item_tag_unassigned item.workspace_id user.id t) (record db {
              item_tags = prisma.delete_rows (is_item_tag item.id tag.id) db.item_tags;
            }),
          ))
  unfolding unassign_tag ensure_is_belonging
  unassign_stored item tag user db same there may =
      let (t, found) = find_stored (is_item_tag item.id tag.id) db there in
      (t, grind (arith, may, emit_lem))

  stored_after :
      (item : Item) (tag : Tag) (user : User) (db : Db) {t : ItemTag} {db' : Db}
      → assign_tag item tag user db ≡ ok (t, db')
      → 0 < count (is_item_tag item.id tag.id) db'.item_tags
  stored_after item tag user db {t} {db'} h =
      let (same, free, last, _) = assign_tag_lem item tag user db h in
      let w = is_item_tag item.id tag.id in
      let row = next_row Delegate.item_tag (item_tag_in item tag) db in
      rw (last) (ground (arith, prisma.count-insert_row w row db.item_tags))

  -- After a tag was put on an item, taking it off comes through, and then the uses of tags are those
  -- of before, and the items, tags and payments too.
  pub unassign_tag-assign_tag :
      (item : Item) (tag : Tag) (user : User) (db : Db) {t : ItemTag} {db' : Db}
      → assign_tag item tag user db ≡ ok (t, db')
      → (after : Db) × (unassign_tag item tag user db' ≡ ok (tt, after))
        × ((q : ItemTag → Bool) → count q after.item_tags ≡ count q db.item_tags)
        × (after.items ≡ db.items)
        × (after.tags ≡ db.tags)
        × (after.payments ≡ db.payments)
  unassign_tag-assign_tag item tag user db {t} {db'} h =
      let (same, free, last, may) = assign_tag_lem item tag user db h in
      let w = is_item_tag item.id tag.id in
      let row = next_row Delegate.item_tag (item_tag_in item tag) db in
      let may' : may_record user.id item.workspace_id db' ≡ true = rw (last) may in
      let (_, run) =
        unassign_stored item tag user db' same (stored_after item tag user db h) may' in
      (
        _,
        run,
        λ q. rw (last) (
            ground (
              arith,
              prisma.count-delete_rows q w (prisma.insert_row row db.item_tags),
              prisma.count-insert_row (λ x. q x && not (w x)) row db.item_tags,
              count_split q w db.item_tags,
              count_mono (λ x. q x && w x) w db.item_tags (λ x e. ground (arith, e)),
              free,
            )),
        ap (λ (d : Db). d.items) last,
        ap (λ (d : Db). d.tags) last,
        ap (λ (d : Db). d.payments) last,
      )

  -- A tag that was put on an item is refused a second time.
  pub assign_tag_twice :
      (item : Item) (tag : Tag) (user other : User) (db : Db) {t : ItemTag} {db' : Db}
      → assign_tag item tag user db ≡ ok (t, db')
      → assign_tag item tag other db' ≡ err bad_request
  unfolding assign_tag ensure_is_belonging
  assign_tag_twice item tag user other db {t} {db'} h =
      let same = (assign_tag_lem item tag user db h).0 in
      let (old, found) =
        find_stored (is_item_tag item.id tag.id) db' (stored_after item tag user db h) in
      ground (arith, same, found)
