-- ===== src/Resolver/PairRequest.antt =====
-- The mutations of two rows as requests: their answers, their right, their workspaces, the resolver
-- and the service of each.
use cost_x.Base.{ℕ, Option}
use cost_x.Prisma.{Prisma}
use cost_x.Schema.{WorkspacePermission, User, Workspace, Item, ItemTag, Db}
use cost_x.Transaction.{M, ◌>>=◌}
use cost_x.History.Emitter.{EventEmitter}
use cost_x.Item.{merge}
use cost_x.Tag.{assign_tag, unassign_tag}
use cost_x.Resolver.Pipes.{item_by_id_pipe, tag_by_id_pipe}
use cost_x.Resolver.Request.{workspace_of_item, workspace_of_tag}
use cost_x.Resolver.Pairs.{assign_tag_mutation, unassign_tag_mutation, merge_items_mutation}

-- A mutation of two rows with its arguments.
pub data PairRequest : Type 0 where
  assigns_tag unassigns_tag merges_items : ℕ → ℕ → PairRequest

abbrev pub PairReply : PairRequest → Type 0
PairReply (PairRequest.assigns_tag _ _) = ItemTag
PairReply (PairRequest.unassigns_tag _ _) = Unit {0}
PairReply (PairRequest.merges_items _ _) = Option Item

abbrev pub pair_right : PairRequest → WorkspacePermission
pair_right (PairRequest.assigns_tag _ _) = WorkspacePermission.assign_tag
pair_right (PairRequest.unassigns_tag _ _) = WorkspacePermission.unassign_tag
pair_right (PairRequest.merges_items _ _) = WorkspacePermission.merge_items

module _ ⦃prisma : Prisma⦄ (db : Db) where
  -- The workspaces of the two rows.
  abbrev pub first_workspace : PairRequest → Option Workspace
  first_workspace (PairRequest.assigns_tag item_id _) = workspace_of_item db item_id
  first_workspace (PairRequest.unassigns_tag item_id _) = workspace_of_item db item_id
  first_workspace (PairRequest.merges_items host_id _) = workspace_of_item db host_id

  abbrev pub second_workspace : PairRequest → Option Workspace
  second_workspace (PairRequest.assigns_tag _ tag_id) = workspace_of_tag db tag_id
  second_workspace (PairRequest.unassigns_tag _ tag_id) = workspace_of_tag db tag_id
  second_workspace (PairRequest.merges_items _ merging_id) = workspace_of_item db merging_id

module _ ⦃prisma : Prisma⦄ ⦃emitter : EventEmitter⦄ (user : User) where
  abbrev pub answer_pair : (r : PairRequest) → M (PairReply r)
  answer_pair (PairRequest.assigns_tag item_id tag_id) = assign_tag_mutation user item_id tag_id
  answer_pair (PairRequest.unassigns_tag item_id tag_id) = unassign_tag_mutation user item_id tag_id
  answer_pair (PairRequest.merges_items host_id merging_id) =
      merge_items_mutation user host_id merging_id

  -- The service, on the rows of the ids.
  abbrev pub serve_pair : (r : PairRequest) → M (PairReply r)
  serve_pair (PairRequest.assigns_tag item_id tag_id) = do
    item ← item_by_id_pipe item_id
    tag ← tag_by_id_pipe tag_id
    assign_tag item tag user
  serve_pair (PairRequest.unassigns_tag item_id tag_id) = do
    item ← item_by_id_pipe item_id
    tag ← tag_by_id_pipe tag_id
    unassign_tag item tag user
  serve_pair (PairRequest.merges_items host_id merging_id) = do
    host ← item_by_id_pipe host_id
    merging ← item_by_id_pipe merging_id
    merge host merging user
