-- ===== src/Schema/Enums.antt =====
-- The enums of `prisma/schema.prisma`. A test `===` between two values of an enum compares their
-- positions in its declaration.
use cost_x.Base.{ℕ, Bool, ◌==◌}

pub data UserRole : Type 0 where
  user admin : UserRole

abbrev pub role_index : UserRole → ℕ
role_index UserRole.user = 0
role_index UserRole.admin = 1

abbrev pub is_role : UserRole → UserRole → Bool
is_role a b = role_index a == role_index b

pub data Permission : Type 0 where
  create_workspace update_profile create_contact_invite accept_contact_invite : Permission
  reject_contact_invite block_user unblock_user delete_contact : Permission
  accept_workspace_invite reject_workspace_invite : Permission

abbrev pub permission_index : Permission → ℕ
permission_index create_workspace = 0
permission_index update_profile = 1
permission_index create_contact_invite = 2
permission_index accept_contact_invite = 3
permission_index reject_contact_invite = 4
permission_index block_user = 5
permission_index unblock_user = 6
permission_index delete_contact = 7
permission_index accept_workspace_invite = 8
permission_index reject_workspace_invite = 9

abbrev pub is_permission : Permission → Permission → Bool
is_permission a b = permission_index a == permission_index b

pub data WorkspacePermission : Type 0 where
  create_item update_item delete_item create_payment update_payment : WorkspacePermission
  delete_payment create_tag update_tag delete_tag assign_tag unassign_tag : WorkspacePermission
  merge_items extract_item create_workspace_invite cancel_workspace_invite : WorkspacePermission
  grant_workspace_permission revoke_workspace_permission : WorkspacePermission
  remove_workspace_member update_workspace_stake_rule override_item_stakes : WorkspacePermission

abbrev pub workspace_permission_index : WorkspacePermission → ℕ
workspace_permission_index create_item = 0
workspace_permission_index update_item = 1
workspace_permission_index delete_item = 2
workspace_permission_index create_payment = 3
workspace_permission_index update_payment = 4
workspace_permission_index delete_payment = 5
workspace_permission_index create_tag = 6
workspace_permission_index update_tag = 7
workspace_permission_index delete_tag = 8
workspace_permission_index assign_tag = 9
workspace_permission_index unassign_tag = 10
workspace_permission_index merge_items = 11
workspace_permission_index extract_item = 12
workspace_permission_index create_workspace_invite = 13
workspace_permission_index cancel_workspace_invite = 14
workspace_permission_index grant_workspace_permission = 15
workspace_permission_index revoke_workspace_permission = 16
workspace_permission_index remove_workspace_member = 17
workspace_permission_index update_workspace_stake_rule = 18
workspace_permission_index override_item_stakes = 19

abbrev pub is_workspace_permission : WorkspacePermission → WorkspacePermission → Bool
is_workspace_permission a b = workspace_permission_index a == workspace_permission_index b

pub data Currency : Type 0 where
  byn usd eur : Currency

abbrev pub currency_index : Currency → ℕ
currency_index byn = 0
currency_index usd = 1
currency_index eur = 2

pub data StakeRule : Type 0 where
  all_payer all_workspace_owner equally : StakeRule

pub data InviteStatus : Type 0 where
  pending accepted rejected : InviteStatus

abbrev pub is_pending : InviteStatus → Bool
is_pending InviteStatus.pending = Bool.true
is_pending _ = Bool.false

pub data WorkspaceInviteStatus : Type 0 where
  pending accepted rejected cancelled : WorkspaceInviteStatus

abbrev pub workspace_invite_status_index : WorkspaceInviteStatus → ℕ
workspace_invite_status_index WorkspaceInviteStatus.pending = 0
workspace_invite_status_index WorkspaceInviteStatus.accepted = 1
workspace_invite_status_index WorkspaceInviteStatus.rejected = 2
workspace_invite_status_index WorkspaceInviteStatus.cancelled = 3

pub data WorkspaceHistoryAction : Type 0 where
  item_created item_updated item_deleted payment_created payment_updated : WorkspaceHistoryAction
  payment_deleted item_tag_assigned item_tag_unassigned tag_created : WorkspaceHistoryAction
  tag_updated tag_deleted workspace_created workspace_updated : WorkspaceHistoryAction
  workspace_deleted item_merged item_extracted : WorkspaceHistoryAction
  workspace_invite_created workspace_invite_accepted : WorkspaceHistoryAction
  workspace_invite_rejected workspace_invite_cancelled : WorkspaceHistoryAction
  workspace_member_created workspace_member_removed item_stakes_changed : WorkspaceHistoryAction
