-- ===== src/Membership/Invites.antt =====
-- src/workspace-membership/workspace-invite.service.ts
use cost_x.Base.{ℕ, none, some, List, ◌==◌}
use cost_x.Prisma.{Prisma}
use cost_x.Schema.{User, Workspace, WorkspacePermission, WorkspaceInvite, WorkspaceInviteStatus}
use cost_x.Transaction.{M, pure, ◌>>=◌, ◌>>◌}
use cost_x.Delegate
use cost_x.Delegate.{create, connect, update_one}
use cost_x.History.{Event}
use cost_x.History.Emitter.{EventEmitter, emit}
use cost_x.Membership.Permissions.{seed_permissions}
use cost_x.Membership.Validation.{
  validate_create_invite, validate_accept_invite, validate_reject_invite, validate_cancel_invite,
}
use cost_x.Membership.Members.{add_member}

abbrev pub new_invite : ℕ → ℕ → ℕ → List WorkspacePermission → ℕ → ℕ → WorkspaceInvite
new_invite workspace_id inviter_id invitee_id permissions now id = record {
  id = id;
  workspace_id = workspace_id;
  inviter_id = inviter_id;
  invitee_id = invitee_id;
  status = WorkspaceInviteStatus.pending;
  permissions = permissions;
  created_at = now;
  reacted_at = none;
}

-- `{ reactedAt: new Date(), status }`
abbrev pub reacted : WorkspaceInviteStatus → ℕ → WorkspaceInvite → WorkspaceInvite
reacted status now i = record i { status = status; reacted_at = some now }

module _ ⦃prisma : Prisma⦄ where
  -- The row of `createInvite`.
  unfoldable pub store_invite : ℕ → ℕ → ℕ → List WorkspacePermission → ℕ → M WorkspaceInvite
  store_invite workspace_id inviter_id invitee_id permissions now = do
    connect Delegate.user (λ u. u.id == invitee_id)
    connect Delegate.user (λ u. u.id == inviter_id)
    connect Delegate.workspace (λ w. w.id == workspace_id)
    create Delegate.workspace_invite (new_invite workspace_id inviter_id invitee_id permissions now)

module _ ⦃prisma : Prisma⦄ ⦃emitter : EventEmitter⦄ where
  unfoldable pub create_invite :
      Workspace → User → User → List WorkspacePermission → ℕ → M WorkspaceInvite
  create_invite workspace inviter invitee permissions now = do
    validate_create_invite workspace.id inviter.id invitee.id permissions
    invite ← store_invite workspace.id inviter.id invitee.id permissions now
    emit (Event.workspace_invite_created workspace.id inviter.id invite)
    pure invite

  unfoldable pub accept_invite : WorkspaceInvite → User → ℕ → M WorkspaceInvite
  accept_invite invite actor now = do
    validate_accept_invite invite
    updated_invite ←
        update_one Delegate.workspace_invite (λ i. i.id == invite.id)
          (reacted WorkspaceInviteStatus.accepted now)
    add_member invite.workspace_id invite.invitee_id (some invite.id) actor.id now
    seed_permissions invite.workspace_id invite.invitee_id invite.permissions
    emit (Event.workspace_invite_accepted invite.workspace_id actor.id updated_invite)
    pure updated_invite

  unfoldable pub reject_invite : WorkspaceInvite → User → ℕ → M WorkspaceInvite
  reject_invite invite actor now = do
    validate_reject_invite invite
    updated_invite ←
        update_one Delegate.workspace_invite (λ i. i.id == invite.id)
          (reacted WorkspaceInviteStatus.rejected now)
    emit (Event.workspace_invite_rejected invite.workspace_id actor.id updated_invite)
    pure updated_invite

  unfoldable pub cancel_invite : WorkspaceInvite → User → ℕ → M WorkspaceInvite
  cancel_invite invite actor now = do
    validate_cancel_invite invite
    updated_invite ←
        update_one Delegate.workspace_invite (λ i. i.id == invite.id)
          (reacted WorkspaceInviteStatus.cancelled now)
    emit (Event.workspace_invite_cancelled invite.workspace_id actor.id updated_invite)
    pure updated_invite
