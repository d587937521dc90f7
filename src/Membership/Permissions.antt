-- ===== src/Membership/Permissions.antt =====
-- src/workspace-membership/workspace-member-permission.service.ts
use cost_x.Base.{
  ℕ, Bool, false, Option, none, some, List, [], ◌∷◌, map, length, not, ◌==◌, is_none, if◌then◌else◌,
}
use cost_x.Prisma.{Prisma}
use cost_x.Schema.{
  admin, is_role, WorkspacePermission, User, Workspace, WorkspaceMember, UserWorkspacePermission,
}
use cost_x.Transaction.{M, pure, throw_if, insufficient_actor_permissions, ◌>>=◌, ◌>>◌}
use cost_x.Delegate
use cost_x.Delegate.{find, list, create_many, create_missing, delete_many}
use cost_x.Membership.Where.{is_active_member, is_right_of, is_granted}

-- `{ permission, userId, workspaceId }`
abbrev pub right : ℕ → ℕ → WorkspacePermission → ℕ → UserWorkspacePermission
right workspace_id user_id permission id = record {
  id = id;
  user_id = user_id;
  workspace_id = workspace_id;
  permission = permission;
}

-- `workspace?.ownerId === userId`
abbrev pub is_owned_by : Option Workspace → ℕ → Bool
is_owned_by none user_id = false
is_owned_by (some w) user_id = w.owner_id == user_id

module _ ⦃prisma : Prisma⦄ where
  -- `seedPermissions`; for an empty list it writes nothing.
  unfoldable pub seed_permissions : ℕ → ℕ → List WorkspacePermission → M (Unit {0})
  seed_permissions workspace_id user_id [] = pure tt
  seed_permissions workspace_id user_id (p ∷ ps) =
      create_many Delegate.user_workspace_permission (map (right workspace_id user_id) (p ∷ ps))

  -- The end of `validateActorCanModify`, for an actor who is neither an admin nor the owner.
  unfoldable pub validate_member_holds : ℕ → User → List WorkspacePermission → M (Unit {0})
  validate_member_holds workspace_id actor permissions = do
    active_member ← find Delegate.workspace_member (is_active_member workspace_id actor.id)
    throw_if (is_none active_member) insufficient_actor_permissions
    granted ← list Delegate.user_workspace_permission (is_granted workspace_id actor.id permissions)
    throw_if (not (length granted == length permissions)) insufficient_actor_permissions

  -- `validateActorCanModify`
  unfoldable pub validate_actor_can_modify : ℕ → User → List WorkspacePermission → M (Unit {0})
  validate_actor_can_modify workspace_id actor [] = pure tt
  validate_actor_can_modify workspace_id actor (p ∷ ps) =
      if is_role actor.role admin then pure tt else (do
        workspace ← find Delegate.workspace (λ w. w.id == workspace_id)
        if is_owned_by workspace actor.id
            then pure tt
            else validate_member_holds workspace_id actor (p ∷ ps))

  -- `grantPermissions`
  unfoldable pub grant_permissions :
      WorkspaceMember → List WorkspacePermission → User → M (Unit {0})
  grant_permissions member permissions actor = do
    validate_actor_can_modify member.workspace_id actor permissions
    create_missing Delegate.user_workspace_permission
        (map (right member.workspace_id member.user_id) permissions)

  -- `revokeAllPermissions`
  unfoldable pub revoke_all_permissions : WorkspaceMember → M (Unit {0})
  revoke_all_permissions member =
      delete_many Delegate.user_workspace_permission
        (is_right_of member.workspace_id member.user_id)

  -- `revokePermissions`
  unfoldable pub revoke_permissions :
      WorkspaceMember → List WorkspacePermission → User → M (Unit {0})
  revoke_permissions member permissions actor = do
    validate_actor_can_modify member.workspace_id actor permissions
    delete_many Delegate.user_workspace_permission
        (is_granted member.workspace_id member.user_id permissions)
