-- ===== src/Membership/Escalation.antt =====
-- Nobody hands out, takes away or promises a permission that he does not hold himself.
use cost_x.Base.{
  ℕ, ◌<◌, ◌≡◌, ◌↔◌, ◌⊎◌, refl, inl, inr, true, List, [], ◌∷◌, arith, count, ◌==◌, Bool-cases,
  Option-cases,
}
use cost_x.Prisma.{Prisma}
use cost_x.Schema.{is_role, admin, WorkspacePermission, User, Db}
use cost_x.Transaction.{ok}
use cost_x.Membership.Where.{is_active_member, is_granted}
use cost_x.Membership.Permissions.{validate_member_holds, validate_actor_can_modify, is_owned_by}
use cost_x.Membership.Guards.{length-find_many}
use cost_x.Membership.Rights.{HasUniqueRights, HoldsAll, IsDistinct, granted_all_iff}

module _ ⦃prisma : Prisma⦄ where
  -- An active member of the workspace who holds each permission of a list that names none twice.
  abbrev pub IsEntitled : ℕ → User → List WorkspacePermission → Db → Type 0
  IsEntitled w actor ps db =
      (0 < count (is_active_member w actor.id) db.workspace_members)
      × HoldsAll w actor.id ps db.workspace_permissions
      × IsDistinct ps

  member_holds :
      (w : ℕ) (actor : User) (ps : List WorkspacePermission) (db : Db)
      → HasUniqueRights db.workspace_permissions
      → validate_member_holds w actor ps db ≡ ok (tt, db)
      → IsEntitled w actor ps db
  unfolding validate_member_holds
  member_holds w actor ps db unique h =
      let shown = granted_all_iff w actor.id db.workspace_permissions ps unique in
      elim (Option-cases (prisma.find_first (is_active_member w actor.id) db.workspace_members)) [
        | inl missing ↦ ground arith
        | inr (m, found) ↦ (
          prisma.find_first_stored (is_active_member w actor.id) (is_active_member w actor.id)
              db.workspace_members m found
              (prisma.find_first_some (is_active_member w actor.id) db.workspace_members m found),
          (shown.0 (
              ground
                (arith, length-find_many (is_granted w actor.id ps) db.workspace_permissions))).0,
          (shown.0 (
              ground
                (arith, length-find_many (is_granted w actor.id ps) db.workspace_permissions))).1,
        )
      ]

  member_passes :
      (w : ℕ) (actor : User) (ps : List WorkspacePermission) (db : Db)
      → HasUniqueRights db.workspace_permissions
      → IsEntitled w actor ps db
      → validate_member_holds w actor ps db ≡ ok (tt, db)
  unfolding validate_member_holds
  member_passes w actor ps db unique (active, held, distinct) = ground (
    arith,
    prisma.find_first_none (is_active_member w actor.id) db.workspace_members,
    length-find_many (is_granted w actor.id ps) db.workspace_permissions,
    (granted_all_iff w actor.id db.workspace_permissions ps unique).1 (held, distinct),
  )

  -- `workspace?.ownerId === actor.id` on the workspace that the database gives.
  abbrev pub Owns : ℕ → ℕ → Db → Type 0
  Owns w user_id db = is_owned_by (prisma.find_first (λ x. x.id == w) db.workspaces) user_id ≡ true

  -- The guard of granting and of revoking permissions passes exactly for an empty list, an admin,
  -- the owner of the workspace, and an active member who holds every permission of a list without
  -- repetition, as long as the database keeps at most one row for a permission of a user in a
  -- workspace.
  pub validate_actor_can_modify_iff :
      (w : ℕ) (actor : User) (ps : List WorkspacePermission) (db : Db)
      → HasUniqueRights db.workspace_permissions
      → (validate_actor_can_modify w actor ps db ≡ ok (tt, db)) ↔ (
          (ps ≡ [])
          ⊎ (is_role actor.role admin ≡ true)
          ⊎ Owns w actor.id db
          ⊎ IsEntitled w actor ps db)
  unfolding validate_actor_can_modify
  validate_actor_can_modify_iff w actor [] db unique = (λ h. inl refl, λ h. refl)
  validate_actor_can_modify_iff w actor (p ∷ ps) db unique =
      let owner = is_owned_by (prisma.find_first (λ x. x.id == w) db.workspaces) actor.id in
      elim (Bool-cases (is_role actor.role admin)) [
        | inl is_admin ↦ (λ h. inr (inl is_admin), λ h. ground arith)
        | inr not_admin ↦ elim (Bool-cases owner) [
          | inl owns ↦ (λ h. inr (inr (inl owns)), λ h. ground arith)
          | inr other ↦ (
            λ h. inr (inr (inr (member_holds w actor (p ∷ ps) db unique (ground arith)))),
            λ h. ground (arith, member_passes w actor (p ∷ ps) db unique),
          )
        ]
      ]
