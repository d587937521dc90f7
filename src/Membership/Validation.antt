-- ===== src/Membership/Validation.antt =====
-- src/workspace-membership/workspace-invite-validation.service.ts
use cost_x.Base.{ℕ, not, List, [], ◌∷◌, length, ◌==◌, is_some, if◌then◌else◌}
use cost_x.Prisma.{Prisma}
use cost_x.Schema.{
  WorkspacePermission, WorkspaceInvite, WorkspaceInviteStatus, workspace_invite_status_index,
}
use cost_x.Transaction.{
  M, pure, throw_if, workspace_invite_already_exists, improper_workspace_invite_status,
  user_already_workspace_member, insufficient_inviter_permissions, ◌>>=◌, ◌>>◌,
}
use cost_x.Delegate
use cost_x.Delegate.{find, list}
use cost_x.Membership.Where.{is_active_member, is_open_invite, is_granted}
use cost_x.Membership.Permissions.{is_owned_by}

-- `validateInviteIsInStatus` with the status `PENDING`, which every caller gives.
unfoldable pub validate_invite_is_pending : WorkspaceInvite → M (Unit {0})
validate_invite_is_pending invite =
    throw_if
      (not (
        workspace_invite_status_index WorkspaceInviteStatus.pending
        == workspace_invite_status_index invite.status))
      improper_workspace_invite_status

module _ ⦃prisma : Prisma⦄ where
  unfoldable pub validate_inviter_has_permissions : ℕ → ℕ → List WorkspacePermission → M (Unit {0})
  validate_inviter_has_permissions workspace_id inviter_id [] = pure tt
  validate_inviter_has_permissions workspace_id inviter_id (p ∷ ps) = do
    workspace ← find Delegate.workspace (λ w. w.id == workspace_id)
    if is_owned_by workspace inviter_id then pure tt else (do
      granted ←
          list Delegate.user_workspace_permission (is_granted workspace_id inviter_id (p ∷ ps))
      throw_if (not (length granted == length (p ∷ ps))) insufficient_inviter_permissions)

  unfoldable pub validate_invite_not_exists : ℕ → ℕ → M (Unit {0})
  validate_invite_not_exists workspace_id invitee_id = do
    existing ← find Delegate.workspace_invite (is_open_invite workspace_id invitee_id)
    throw_if (is_some existing) workspace_invite_already_exists

  unfoldable pub validate_not_already_member : ℕ → ℕ → M (Unit {0})
  validate_not_already_member workspace_id user_id = do
    existing ← find Delegate.workspace_member (is_active_member workspace_id user_id)
    throw_if (is_some existing) user_already_workspace_member

  unfoldable pub validate_create_invite : ℕ → ℕ → ℕ → List WorkspacePermission → M (Unit {0})
  validate_create_invite workspace_id inviter_id invitee_id permissions = do
    validate_invite_not_exists workspace_id invitee_id
    validate_not_already_member workspace_id invitee_id
    validate_inviter_has_permissions workspace_id inviter_id permissions

  unfoldable pub validate_accept_invite : WorkspaceInvite → M (Unit {0})
  validate_accept_invite invite = do
    validate_invite_is_pending invite
    validate_not_already_member invite.workspace_id invite.invitee_id

unfoldable pub validate_reject_invite : WorkspaceInvite → M (Unit {0})
unfolding validate_invite_is_pending
validate_reject_invite invite = validate_invite_is_pending invite

unfoldable pub validate_cancel_invite : WorkspaceInvite → M (Unit {0})
unfolding validate_invite_is_pending
validate_cancel_invite invite = validate_invite_is_pending invite
