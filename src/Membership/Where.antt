-- ===== src/Membership/Where.antt =====
-- The `where` clauses of src/workspace-membership.
use cost_x.Base.{ℕ, Bool, ◌&&◌, List, ◌==◌, is_none, includes_by}
use cost_x.Schema.{
  WorkspacePermission, workspace_permission_index, WorkspaceMember, WorkspaceInvite,
  UserWorkspacePermission,
}

-- `permissions.includes(p)`, and `{ in: permissions }`
abbrev pub includes : List WorkspacePermission → WorkspacePermission → Bool
includes = includes_by workspace_permission_index

-- `{ removedAt: null, userId, workspaceId }`
abbrev pub is_active_member : ℕ → ℕ → WorkspaceMember → Bool
is_active_member workspace_id user_id m =
    is_none m.removed_at && (m.user_id == user_id && m.workspace_id == workspace_id)

-- `{ inviteeId, reactedAt: null, workspaceId }`
abbrev pub is_open_invite : ℕ → ℕ → WorkspaceInvite → Bool
is_open_invite workspace_id invitee_id i =
    i.invitee_id == invitee_id && (is_none i.reacted_at && i.workspace_id == workspace_id)

-- `{ userId, workspaceId }`
abbrev pub is_right_of : ℕ → ℕ → UserWorkspacePermission → Bool
is_right_of workspace_id user_id g = g.user_id == user_id && g.workspace_id == workspace_id

-- `{ permission: { in: permissions }, userId, workspaceId }`
abbrev pub is_granted : ℕ → ℕ → List WorkspacePermission → UserWorkspacePermission → Bool
is_granted workspace_id user_id permissions g =
    includes permissions g.permission && is_right_of workspace_id user_id g
