-- ===== src/Item/Merge.antt =====
-- src/item-merge/item-merge.service.ts
use cost_x.Base.{ℕ, Bool, Option, some, ◌&&◌, ◌==◌, is_none}
use cost_x.Prisma.{Prisma}
use cost_x.Schema.{User, Item, Payment, ItemTag, ItemStake}
use cost_x.Transaction.{M, pure, ◌>>=◌, ◌>>◌}
use cost_x.Delegate
use cost_x.Delegate.{find, update_many, delete_one, delete_many}
use cost_x.History.{Event}
use cost_x.History.Emitter.{EventEmitter, emit}
use cost_x.Item.Consistency.{ensure_is_belonging, items_to_same_workspace}

abbrev pub is_payment_of : ℕ → Payment → Bool
is_payment_of item_id p = p.item_id == item_id

abbrev pub is_stake_of : ℕ → ItemStake → Bool
is_stake_of item_id s = s.item_id == item_id

-- `{ itemId, title: null }`
abbrev pub is_untitled_of : ℕ → Payment → Bool
is_untitled_of item_id p = p.item_id == item_id && is_none p.title

abbrev pub is_tag_of : ℕ → ItemTag → Bool
is_tag_of item_id t = t.item_id == item_id

abbrev pub titled : Item → Payment → Payment
titled item p = record p { title = some item.title }

abbrev pub moved_to : Item → Payment → Payment
moved_to item p = record p { item_id = item.id }

module _ ⦃prisma : Prisma⦄ where
  -- `item.delete`, with the payments, tags and stakes that go with it (`onDelete: Cascade`)
  unfoldable pub delete_item_row : ℕ → M Item
  delete_item_row item_id = do
    item ← delete_one Delegate.item (λ i. i.id == item_id)
    delete_many Delegate.payment (is_payment_of item_id)
    delete_many Delegate.item_tag (is_tag_of item_id)
    delete_many Delegate.item_stake (is_stake_of item_id)
    pure item

module _ ⦃prisma : Prisma⦄ ⦃emitter : EventEmitter⦄ where
  unfoldable pub merge : Item → Item → User → M (Option Item)
  merge host_item merging_item current_user = do
    ensure_is_belonging items_to_same_workspace host_item merging_item
    update_many Delegate.payment (is_untitled_of merging_item.id) (titled merging_item)
    update_many Delegate.payment (is_payment_of merging_item.id) (moved_to host_item)
    delete_many Delegate.item_tag (is_tag_of merging_item.id)
    delete_item_row merging_item.id
    result ← find Delegate.item (λ i. i.id == host_item.id)
    emit (Event.item_merged host_item.workspace_id current_user.id host_item merging_item result)
    pure result
