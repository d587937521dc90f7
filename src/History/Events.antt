-- ===== src/History/Events.antt =====
-- The events of src/workspace-history/entity/workspace-history-event.enum.ts with the fields of
-- their classes in src/workspace-history/dto. Every event carries the transaction it is part of;
-- here that is the state.
use cost_x.Base.{ℕ, Option, List}
use cost_x.Schema.{
  StakeRule, ItemStake, Item, Payment, Tag, ItemTag, Workspace, WorkspaceInvite, WorkspaceMember,
}

-- `ItemStakesChangedEventPayload`
pub record StakesPayload : Type 0 where
  pub item_id : ℕ
  pub stake_rule : Option StakeRule
  pub stakes : Option (List ItemStake)

pub data Event : Type 0 where
  item_created : (workspace_id actor_id : ℕ) → Item → Event
  item_updated : (workspace_id actor_id : ℕ) (old_item new_item : Item) → Event
  item_deleted : (workspace_id actor_id : ℕ) → Item → Event
  payment_deleted : (workspace_id actor_id : ℕ) → Payment → Event
  payment_updated : (workspace_id actor_id : ℕ) (old_payment new_payment : Payment) → Event
  payment_created : (workspace_id actor_id : ℕ) → Payment → Event
  item_tag_assigned : (workspace_id actor_id : ℕ) → ItemTag → Event
  item_tag_unassigned : (workspace_id actor_id : ℕ) → ItemTag → Event
  item_extracted : (workspace_id actor_id : ℕ) (source_item extracted_item : Item) → Event
  item_merged :
      (workspace_id actor_id : ℕ) (host_item merging_item : Item) (result_item : Option Item)
      → Event
  tag_created : (workspace_id actor_id : ℕ) → Tag → Event
  tag_updated : (workspace_id actor_id : ℕ) (old_tag new_tag : Tag) → Event
  tag_deleted : (workspace_id actor_id : ℕ) → Tag → Event
  workspace_created : (actor_id : ℕ) → Workspace → Event
  workspace_updated : (actor_id : ℕ) (old_workspace new_workspace : Workspace) → Event
  workspace_deleted : (actor_id : ℕ) → Workspace → Event
  workspace_invite_created : (workspace_id actor_id : ℕ) → WorkspaceInvite → Event
  workspace_invite_accepted : (workspace_id actor_id : ℕ) → WorkspaceInvite → Event
  workspace_invite_rejected : (workspace_id actor_id : ℕ) → WorkspaceInvite → Event
  workspace_member_created : (workspace_id actor_id : ℕ) → WorkspaceMember → Event
  workspace_member_removed : (workspace_id actor_id : ℕ) → WorkspaceMember → Event
  workspace_invite_cancelled : (workspace_id actor_id : ℕ) → WorkspaceInvite → Event
  item_stakes_changed : (workspace_id actor_id : ℕ) (old_value new_value : StakesPayload) → Event
