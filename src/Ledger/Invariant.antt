-- ===== src/Ledger/Invariant.antt =====
-- What holds of the items, the tags and the payments of a database: every payment is of an item
-- and by a member of the same workspace, and a tag is on items of its own workspace only.
use cost_x.Base.{ℕ, ◌≡◌, ◌<◌, refl, Bool, ◌&&◌, Option, count, ◌==◌, String}
use cost_x.Prisma.{Prisma}
use cost_x.Schema.{Item, Tag, ItemTag, Payment, WorkspaceMember, Db}
use cost_x.Item.{is_payment_of, is_tag_of, is_stake_of}
use cost_x.Ledger.Places.{
  IsPlacedBy, put_at, taken_from, no_row_no_place, insert-IsPlacedBy, update-IsPlacedBy,
  delete-IsPlacedBy,
}
use cost_x.Ledger.References.{
  IsUniqueBy, IsWhole, new_left-IsWhole, cut_left-IsWhole, delete-IsUniqueBy,
}

-- The workspace of each item, tag and member.
pub record Places : Type 0 where
  pub item : ℕ → Option ℕ
  pub tag : ℕ → Option ℕ
  pub member : ℕ → Option ℕ

pub record IsKeptBy (at : Places) (db : Db) : Type 0 where
  pub items : IsPlacedBy (λ (i : Item). i.id) (λ i. i.workspace_id) at.item db.items
  pub tags : IsPlacedBy (λ (t : Tag). t.id) (λ t. t.workspace_id) at.tag db.tags
  pub members :
      IsPlacedBy
        (λ (m : WorkspaceMember). m.id)
        (λ m. m.workspace_id)
        at.member
        db.workspace_members
  pub payments :
      IsWhole (λ (p : Payment). p.item_id) (λ p. p.payer_id) at.item at.member db.payments
  pub item_tags : IsWhole (λ (x : ItemTag). x.item_id) (λ x. x.tag_id) at.item at.tag db.item_tags
  pub unique : IsUniqueBy (λ (p : Payment). p.id) db.payments

abbrev pub IsKept : Db → Type 0
IsKept db = (at : Places) × IsKeptBy at db

-- The rows that a resolver has read.
abbrev pub HasItem : Item → Db → Type 0
HasItem item db = 0 < count (λ i. i.id == item.id && i.workspace_id == item.workspace_id) db.items

abbrev pub HasTag : Tag → Db → Type 0
HasTag tag db = 0 < count (λ t. t.id == tag.id && t.workspace_id == tag.workspace_id) db.tags

abbrev pub HasMember : WorkspaceMember → Db → Type 0
HasMember m db =
    0 < count (λ n. n.id == m.id && n.workspace_id == m.workspace_id) db.workspace_members

abbrev pub HasPayment : Payment → Db → Type 0
HasPayment p db = 0 < count (λ q. q.id == p.id && q.item_id == p.item_id) db.payments

module _ ⦃prisma : Prisma⦄ where
  -- An item that has an id of its own comes in.
  pub insert_item-IsKept :
      (item : Item) (db : Db)
      → count (λ (i : Item). i.id == item.id) db.items ≡ 0
      → IsKept db
      → IsKept (record db { items = prisma.insert_row item db.items })
  insert_item-IsKept item db fresh (at, kept) =
      let free =
        no_row_no_place (λ (i : Item). i.id) (λ i. i.workspace_id) at.item db.items item.id
          kept.items fresh in
      (
        record at { item = put_at at.item item.id item.workspace_id },
        record {
          items =
              insert-IsPlacedBy (λ i. i.id) (λ i. i.workspace_id) at.item db.items item kept.items
                free;
          tags = kept.tags;
          members = kept.members;
          payments =
              new_left-IsWhole (λ (p : Payment). p.item_id) (λ p. p.payer_id) at.item at.member
                db.payments item.id item.workspace_id free kept.payments;
          item_tags =
              new_left-IsWhole (λ (x : ItemTag). x.item_id) (λ x. x.tag_id) at.item at.tag
                db.item_tags item.id item.workspace_id free kept.item_tags;
          unique = kept.unique;
        },
      )

  -- A title changes.
  pub retitle_item-IsKept :
      (w : Item → Bool) (title : String) (db : Db)
      → IsKept db
      → IsKept
          (record db { items = prisma.update_rows w (λ i. record i { title = title }) db.items })
  retitle_item-IsKept w title db (at, kept) = (
    at,
    record {
      items =
          update-IsPlacedBy (λ (i : Item). i.id) (λ i. i.workspace_id) at.item db.items w
            (λ i. record i { title = title }) (λ i. refl) (λ i. refl) kept.items;
      tags = kept.tags;
      members = kept.members;
      payments = kept.payments;
      item_tags = kept.item_tags;
      unique = kept.unique;
    },
  )

  -- An item goes with its payments, its tags and its stakes.
  pub remove_item-IsKept :
      (k : ℕ) (db : Db)
      → IsKept db
      → IsKept (record db {
        items = prisma.delete_rows (λ (i : Item). i.id == k) db.items;
        payments = prisma.delete_rows (is_payment_of k) db.payments;
        item_tags = prisma.delete_rows (is_tag_of k) db.item_tags;
        item_stakes = prisma.delete_rows (is_stake_of k) db.item_stakes;
      })
  remove_item-IsKept k db (at, kept) = (
    record at { item = taken_from at.item k },
    record {
      items = delete-IsPlacedBy (λ i. i.id) (λ i. i.workspace_id) at.item db.items k kept.items;
      tags = kept.tags;
      members = kept.members;
      payments =
          cut_left-IsWhole (λ (p : Payment). p.item_id) (λ p. p.payer_id) at.item at.member
            db.payments k kept.payments;
      item_tags =
          cut_left-IsWhole (λ (x : ItemTag). x.item_id) (λ x. x.tag_id) at.item at.tag db.item_tags
            k kept.item_tags;
      unique = delete-IsUniqueBy (λ (p : Payment). p.id) db.payments (is_payment_of k) kept.unique;
    },
  )
