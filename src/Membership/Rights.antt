-- ===== src/Membership/Rights.antt =====
-- The rights of a user in a workspace, counted, and what the comparison `granted.length !==
-- permissions.length` tells of them.
use cost_x.Base.{
  ℕ, ◌≤◌, ◌≡◌, ◌↔◌, Bool, ◌&&◌, List, count, length, HoldsAllBy, IsDistinctBy, all_listed_iff,
}
use cost_x.Schema.{
  WorkspacePermission, is_workspace_permission, UserWorkspacePermission, workspace_permission_index,
}
use cost_x.Membership.Where.{is_right_of, is_granted}

-- The row of one permission.
abbrev pub is_right : ℕ → ℕ → WorkspacePermission → UserWorkspacePermission → Bool
is_right workspace_id user_id p g =
    is_workspace_permission p g.permission && is_right_of workspace_id user_id g

-- `@@unique([userId, workspaceId, permission])`
abbrev pub HasUniqueRights : List UserWorkspacePermission → Type 0
HasUniqueRights rows = (w u : ℕ) (p : WorkspacePermission) → count (is_right w u p) rows ≤ 1

-- The user holds every permission of the list.
abbrev pub HoldsAll : ℕ → ℕ → List WorkspacePermission → List UserWorkspacePermission → Type 0
HoldsAll w u ps rows =
    HoldsAllBy workspace_permission_index (λ (g : UserWorkspacePermission). g.permission)
      (is_right_of w u) rows ps

-- No permission stands in the list twice.
abbrev pub IsDistinct : List WorkspacePermission → Type 0
IsDistinct = IsDistinctBy workspace_permission_index

pub granted_all_iff :
    (w u : ℕ) (rows : List UserWorkspacePermission) (ps : List WorkspacePermission)
    → HasUniqueRights rows
    → (count (is_granted w u ps) rows ≡ length ps) ↔ (HoldsAll w u ps rows × IsDistinct ps)
granted_all_iff w u rows ps unique =
    all_listed_iff workspace_permission_index (λ g. g.permission) (is_right_of w u) rows
      (unique w u) ps
