-- ===== src/Item/Service.antt =====
-- The mutations of src/item/item.service.ts. `delete` takes with the row what the database deletes
-- with it.
use cost_x.Base.{ℕ, Option, none, some, String, ◌==◌}
use cost_x.Prisma.{Prisma}
use cost_x.Schema.{User, Workspace, Item}
use cost_x.Transaction.{M, pure, ◌>>=◌, ◌>>◌}
use cost_x.Delegate
use cost_x.Delegate.{find, create, connect, update_one}
use cost_x.History.{Event}
use cost_x.History.Emitter.{EventEmitter, emit}
use cost_x.Item.Merge.{delete_item_row}

-- `stakeRule: workspace.stakeRule`
abbrev pub item_in : Workspace → String → ℕ → Item
item_in workspace title id = record {
  id = id;
  title = title;
  workspace_id = workspace.id;
  stake_rule = some workspace.stake_rule;
}

-- `patch.title ?? item.title`
abbrev pub title_or : Option String → String → String
title_or none title = title
title_or (some new_title) title = new_title

abbrev pub retitled : String → Item → Item
retitled title item = record item { title = title }

module _ ⦃prisma : Prisma⦄ where
  unfoldable pub item_of_id : ℕ → M (Option Item)
  item_of_id id = find Delegate.item (λ i. i.id == id)

module _ ⦃prisma : Prisma⦄ ⦃emitter : EventEmitter⦄ where
  unfoldable pub create_item : Workspace → String → User → M Item
  create_item workspace title current_user = do
    connect Delegate.workspace (λ w. w.id == workspace.id)
    item ← create Delegate.item (item_in workspace title)
    emit (Event.item_created workspace.id current_user.id item)
    pure item

  unfoldable pub update_item : Item → Option String → User → M Item
  update_item item patch_title current_user = do
    updated_item ←
        update_one Delegate.item (λ i. i.id == item.id) (retitled (title_or patch_title item.title))
    emit (Event.item_updated item.workspace_id current_user.id item updated_item)
    pure updated_item

  unfoldable pub delete_item : Item → User → M (Unit {0})
  delete_item item current_user = do
    delete_item_row item.id
    emit (Event.item_deleted item.workspace_id current_user.id item)
    pure tt
