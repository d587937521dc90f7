-- ===== src/Ledger/Rows.antt =====
-- The payments, the tags and the uses of tags come, change and go, and the invariant stays.
use cost_x.Base.{ℕ, ◌≡◌, refl, Bool, List, count, ◌==◌}
use cost_x.Prisma.{Prisma}
use cost_x.Schema.{Tag, ItemTag, Payment, Db}
use cost_x.History.{Event}
use cost_x.History.Laws.{logged}
use cost_x.Tag.{is_use_of, TagInDto, repainted}
use cost_x.Ledger.Places.{
  put_at, taken_from, no_row_no_place, insert-IsPlacedBy, update-IsPlacedBy, delete-IsPlacedBy,
}
use cost_x.Ledger.References.{
  IsUniqueBy, IsWhole, new_right-IsWhole, cut_right-IsWhole, delete-IsWhole, delete-IsUniqueBy,
}
use cost_x.Ledger.Invariant.{IsKept, IsKeptBy, Places}

module _ ⦃prisma : Prisma⦄ where
  -- The history is not part of the invariant.
  pub logged-IsKept : (e : Event) (db : Db) → IsKept db → IsKept (logged e db)
  logged-IsKept e db (at, kept) = (
    at,
    record {
      items = kept.items;
      tags = kept.tags;
      members = kept.members;
      payments = kept.payments;
      item_tags = kept.item_tags;
      unique = kept.unique;
    },
  )

  -- The invariant with other payments.
  pub payments-IsKept :
      (rows : List Payment) (db : Db)
      → ((at : Places)
          → IsKeptBy at db
          → IsWhole (λ (p : Payment). p.item_id) (λ p. p.payer_id) at.item at.member rows
            × IsUniqueBy (λ (p : Payment). p.id) rows)
      → IsKept db
      → IsKept (record db { payments = rows })
  payments-IsKept rows db change (at, kept) = (
    at,
    record {
      items = kept.items;
      tags = kept.tags;
      members = kept.members;
      payments = (change at kept).0;
      item_tags = kept.item_tags;
      unique = (change at kept).1;
    },
  )

  -- The invariant with other uses of tags.
  pub item_tags-IsKept :
      (rows : List ItemTag) (db : Db)
      → ((at : Places)
          → IsKeptBy at db
          → IsWhole (λ (x : ItemTag). x.item_id) (λ x. x.tag_id) at.item at.tag rows)
      → IsKept db
      → IsKept (record db { item_tags = rows })
  item_tags-IsKept rows db change (at, kept) = (
    at,
    record {
      items = kept.items;
      tags = kept.tags;
      members = kept.members;
      payments = kept.payments;
      item_tags = change at kept;
      unique = kept.unique;
    },
  )

  pub delete_payments-IsKept :
      (w : Payment → Bool) (db : Db)
      → IsKept db
      → IsKept (record db { payments = prisma.delete_rows w db.payments })
  delete_payments-IsKept w db = payments-IsKept (prisma.delete_rows w db.payments) db λ at kept. (
    delete-IsWhole (λ (p : Payment). p.item_id) (λ p. p.payer_id) at.item at.member db.payments w
        kept.payments,
    delete-IsUniqueBy (λ (p : Payment). p.id) db.payments w kept.unique,
  )

  pub delete_item_tags-IsKept :
      (w : ItemTag → Bool) (db : Db)
      → IsKept db
      → IsKept (record db { item_tags = prisma.delete_rows w db.item_tags })
  delete_item_tags-IsKept w db = item_tags-IsKept (prisma.delete_rows w db.item_tags) db λ at kept.
      delete-IsWhole (λ (x : ItemTag). x.item_id) (λ x. x.tag_id) at.item at.tag db.item_tags w
        kept.item_tags

  pub insert_tag-IsKept :
      (tag : Tag) (db : Db)
      → count (λ (t : Tag). t.id == tag.id) db.tags ≡ 0
      → IsKept db
      → IsKept (record db { tags = prisma.insert_row tag db.tags })
  insert_tag-IsKept tag db fresh (at, kept) =
      let free =
        no_row_no_place (λ (t : Tag). t.id) (λ t. t.workspace_id) at.tag db.tags tag.id kept.tags
          fresh in
      (
        record at { tag = put_at at.tag tag.id tag.workspace_id },
        record {
          items = kept.items;
          tags =
              insert-IsPlacedBy (λ t. t.id) (λ t. t.workspace_id) at.tag db.tags tag kept.tags free;
          members = kept.members;
          payments = kept.payments;
          item_tags =
              new_right-IsWhole (λ (x : ItemTag). x.item_id) (λ x. x.tag_id) at.item at.tag
                db.item_tags tag.id tag.workspace_id free kept.item_tags;
          unique = kept.unique;
        },
      )

  pub repaint_tag-IsKept :
      (w : Tag → Bool) (dto : TagInDto) (db : Db)
      → IsKept db
      → IsKept (record db { tags = prisma.update_rows w (repainted dto) db.tags })
  repaint_tag-IsKept w dto db (at, kept) = (
    at,
    record {
      items = kept.items;
      tags =
          update-IsPlacedBy (λ (t : Tag). t.id) (λ t. t.workspace_id) at.tag db.tags w
            (repainted dto) (λ t. refl) (λ t. refl) kept.tags;
      members = kept.members;
      payments = kept.payments;
      item_tags = kept.item_tags;
      unique = kept.unique;
    },
  )

  -- A tag goes with its uses.
  pub remove_tag-IsKept :
      (k : ℕ) (db : Db)
      → IsKept db
      → IsKept (record db {
        tags = prisma.delete_rows (λ (t : Tag). t.id == k) db.tags;
        item_tags = prisma.delete_rows (is_use_of k) db.item_tags;
      })
  remove_tag-IsKept k db (at, kept) = (
    record at { tag = taken_from at.tag k },
    record {
      items = kept.items;
      tags = delete-IsPlacedBy (λ t. t.id) (λ t. t.workspace_id) at.tag db.tags k kept.tags;
      members = kept.members;
      payments = kept.payments;
      item_tags =
          cut_right-IsWhole (λ (x : ItemTag). x.item_id) (λ x. x.tag_id) at.item at.tag db.item_tags
            k kept.item_tags;
      unique = kept.unique;
    },
  )
