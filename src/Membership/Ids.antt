-- ===== src/Membership/Ids.antt =====
-- The keys of the members' table.
use cost_x.Base.{ℕ, ◌≤◌, count, ◌==◌}
use cost_x.Schema.{WorkspaceMember, Db}
use cost_x.Membership.Where.{is_active_member}

-- `@id`
abbrev pub HasUniqueIds : Db → Type 0
HasUniqueIds db = (n : ℕ) → count (λ (m : WorkspaceMember). m.id == n) db.workspace_members ≤ 1

-- `@@unique([workspaceId, userId], where: { removedAt: null })`
abbrev pub HasUniqueMembers : Db → Type 0
HasUniqueMembers db = (w u : ℕ) → count (is_active_member w u) db.workspace_members ≤ 1
