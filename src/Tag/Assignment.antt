-- ===== src/Tag/Assignment.antt =====
-- The mutations of src/item-tag/item-tag.service.ts.
use cost_x.Base.{ℕ, Bool, ◌&&◌, ◌==◌, not, is_none}
use cost_x.Prisma.{Prisma}
use cost_x.Schema.{User, Item, Tag, ItemTag}
use cost_x.Transaction.{M, pure, throw_if, or_throw, bad_request, ◌>>=◌, ◌>>◌}
use cost_x.Delegate
use cost_x.Delegate.{find, create, connect, delete_one}
use cost_x.History.{Event}
use cost_x.History.Emitter.{EventEmitter, emit}
use cost_x.Item.{ensure_is_belonging, item_and_tag_to_same_workspace}

-- `itemId_tagId: { itemId, tagId }`
abbrev pub is_item_tag : ℕ → ℕ → ItemTag → Bool
is_item_tag item_id tag_id t = t.item_id == item_id && t.tag_id == tag_id

abbrev pub item_tag_in : Item → Tag → ℕ → ItemTag
item_tag_in item tag id = record { id = id; item_id = item.id; tag_id = tag.id }

module _ ⦃prisma : Prisma⦄ ⦃emitter : EventEmitter⦄ where
  unfoldable pub assign_tag : Item → Tag → User → M ItemTag
  assign_tag item tag current_user = do
    ensure_is_belonging item_and_tag_to_same_workspace item tag
    existing_item_tag ← find Delegate.item_tag (is_item_tag item.id tag.id)
    throw_if (not (is_none existing_item_tag)) bad_request
    connect Delegate.item (λ i. i.id == item.id)
    connect Delegate.tag (λ t. t.id == tag.id)
    item_tag ← create Delegate.item_tag (item_tag_in item tag)
    emit (Event.item_tag_assigned item.workspace_id current_user.id item_tag)
    pure item_tag

  unfoldable pub unassign_tag : Item → Tag → User → M (Unit {0})
  unassign_tag item tag current_user = do
    ensure_is_belonging item_and_tag_to_same_workspace item tag
    found ← find Delegate.item_tag (is_item_tag item.id tag.id)
    item_tag ← or_throw bad_request found
    delete_one Delegate.item_tag (is_item_tag item.id tag.id)
    emit (Event.item_tag_unassigned item.workspace_id current_user.id item_tag)
    pure tt
