-- ===== src/Membership/Members.antt =====
-- src/workspace-membership/workspace-member.service.ts. `now` is the reading of the clock.
use cost_x.Base.{ℕ, not, Option, none, some, List, ◌&&◌, ◌==◌, is_none}
use cost_x.Prisma.{Prisma}
use cost_x.Schema.{WorkspaceMember}
use cost_x.Transaction.{
  M, pure, throw_if, workspace_member_already_removed, cannot_remove_workspace_owner, ◌>>=◌, ◌>>◌,
}
use cost_x.Delegate
use cost_x.Delegate.{find, list, create, connect, update_one}
use cost_x.History.{Event}
use cost_x.History.Emitter.{EventEmitter, emit}
use cost_x.Membership.Permissions.{is_owned_by, revoke_all_permissions}

abbrev pub new_member : ℕ → ℕ → Option ℕ → ℕ → ℕ → WorkspaceMember
new_member workspace_id user_id invite_id now id = record {
  id = id;
  workspace_id = workspace_id;
  user_id = user_id;
  invite_id = invite_id;
  joined_at = now;
  removed_at = none;
  removed_by_user_id = none;
}

abbrev pub removed : ℕ → ℕ → WorkspaceMember → WorkspaceMember
removed actor_id now m = record m { removed_at = some now; removed_by_user_id = some actor_id }

module _ ⦃prisma : Prisma⦄ where
  -- `inviteId !== null ? { invite: { connect: { id: inviteId } } } : {}`
  abbrev pub connect_invite : Option ℕ → M (Unit {0})
  connect_invite none = pure tt
  connect_invite (some id) = connect Delegate.workspace_invite (λ i. i.id == id)

  -- The row of `create`.
  unfoldable pub create_member : ℕ → ℕ → Option ℕ → ℕ → M WorkspaceMember
  create_member workspace_id user_id invite_id now = do
    connect Delegate.user (λ u. u.id == user_id)
    connect Delegate.workspace (λ w. w.id == workspace_id)
    connect_invite invite_id
    create Delegate.workspace_member (new_member workspace_id user_id invite_id now)

  -- `listActiveByWorkspaceId`, whose rows come in the order of joining
  unfoldable pub list_active_by_workspace_id : ℕ → M (List WorkspaceMember)
  list_active_by_workspace_id workspace_id =
      list Delegate.workspace_member (λ m. is_none m.removed_at && m.workspace_id == workspace_id)

  -- The two guards of `remove`.
  unfoldable pub validate_remove : WorkspaceMember → M (Unit {0})
  validate_remove member = do
    throw_if (not (is_none member.removed_at)) workspace_member_already_removed
    workspace ← find Delegate.workspace (λ w. w.id == member.workspace_id)
    throw_if (is_owned_by workspace member.user_id) cannot_remove_workspace_owner

module _ ⦃prisma : Prisma⦄ ⦃emitter : EventEmitter⦄ where
  -- `create`
  unfoldable pub add_member : ℕ → ℕ → Option ℕ → ℕ → ℕ → M WorkspaceMember
  add_member workspace_id user_id invite_id actor_id now = do
    member ← create_member workspace_id user_id invite_id now
    emit (Event.workspace_member_created workspace_id actor_id member)
    pure member

  -- `remove`
  unfoldable pub remove : WorkspaceMember → ℕ → ℕ → M WorkspaceMember
  remove member actor_id now = do
    validate_remove member
    removed_member ←
        update_one Delegate.workspace_member (λ m. m.id == member.id) (removed actor_id now)
    revoke_all_permissions removed_member
    emit (Event.workspace_member_removed member.workspace_id actor_id removed_member)
    pure removed_member
