-- ===== src/Access/Decision.antt =====
-- The services of src/access decide what the rules mean.
use cost_x.Base.{
  ◌≡◌, ◌↔◌, ◌⊎◌, refl, sym, subst, inl, inr, Bool, true, ◌&&◌, Option, none, some, List, [], ◌∷◌,
  arith, count, includes_by, all_listed_iff, Option-cases, Bool-cases,
}
use cost_x.Prisma.{Prisma}
use cost_x.Schema.{
  User, UserRole, role_index, Permission, permission_index, UserPermission, WorkspacePermission, Db,
}
use cost_x.Transaction.{M, ok, pure, ◌>>=◌}
use cost_x.Membership.{is_active_member, is_granted}
use cost_x.Membership.Guards.{length-find_many}
use cost_x.Membership.Rights.{granted_all_iff}
use cost_x.Access.Rules.{AccessScope, WorkspaceRole, Rule, Entity, Entities, get_target}
use cost_x.Access.Strategies.{
  is_user_permission, is_owner, is_same_id, target_of, is_target, holds_permissions,
  has_workspace_role, has_workspace_permissions,
}
use cost_x.Access.Engine.{execute_rule}
use cost_x.Access.Meaning.{
  is_permission_of, HasUniqueKeys, HoldsPermissions, HasRole, HoldsRights, Owns, IsMember,
  Satisfies, IsThere, IsTarget,
}

-- An answer, of a call that changed nothing, to the question whether something holds.
abbrev pub Decides : Bool → Db → Db → Type 0 → Type 0
Decides b db db' P = (db' ≡ db) × ((b ≡ true) ↔ P)

module _ ⦃prisma : Prisma⦄ where
  permissions-Decides :
      (user : User) (ps : List Permission) (db : Db) {b : Bool} {db' : Db}
      → HasUniqueKeys db
      → holds_permissions user ps db ≡ ok (b, db')
      → Decides b db db' (HoldsPermissions db user ps)
  unfolding holds_permissions
  permissions-Decides user ps db keys h =
      let shown =
        all_listed_iff permission_index (λ (r : UserPermission). r.permission)
          (is_permission_of user.id) db.user_permissions (keys.permissions user.id) ps in
      let counted = prisma.count_rows_lem (is_user_permission user.id ps) db.user_permissions in
      (cc, (λ yes. shown.0 (ground (arith, counted)), λ all. grind (arith, counted, shown.1 all)))

  active-IsMember-cases :
      (e : Entity) (user : User) (db : Db)
      → ((prisma.find_first (is_active_member e.id user.id) db.workspace_members ≡ none)
          × (count (is_active_member e.id user.id) db.workspace_members ≡ 0))
        ⊎ ((m : _) × (prisma.find_first (is_active_member e.id user.id) db.workspace_members
              ≡ some m)
            × IsMember db user e)
  active-IsMember-cases e user db =
      let p = is_active_member e.id user.id in
      elim (Option-cases (prisma.find_first p db.workspace_members)) [
        | inl missing ↦ inl (missing, prisma.find_first_none p db.workspace_members missing)
        | inr (m, found) ↦ inr (
          m,
          found,
          prisma.find_first_stored p p db.workspace_members m found
              (prisma.find_first_some p db.workspace_members m found),
        )
      ]

  owner_iff : (user : User) (e : Entity) → (is_owner user e ≡ true) ↔ Owns user e
  owner_iff user e = elim (Option-cases e.owner_id) [
    | inl unowned ↦ (λ h. ground arith, λ h. absurd (ground arith))
    | inr (id, owned) ↦ (λ h. ground arith, λ h. ground arith)
  ]

  role-Decides :
      (roles : List WorkspaceRole) (user : User) (e : Entity) (db : Db) {b : Bool} {db' : Db}
      → has_workspace_role roles user e db ≡ ok (b, db')
      → Decides b db db' (HasRole db roles user e)
  unfolding has_workspace_role
  role-Decides roles user e db h = elim (Bool-cases (is_owner user e)) [
    | inl owner ↦ (
      ground arith,
      (
        λ yes. inl ((owner_iff user e).0 owner, ground arith),
        λ has. elim has [
          | inl (_, listed) ↦ ground arith
          | inr (other, _, _) ↦ absurd (other ((owner_iff user e).0 owner))
        ],
      ),
    )
    | inr other ↦
        let stranger : ¬ Owns user e = λ owns. absurd (ground (arith, (owner_iff user e).1 owns)) in
        elim (active-IsMember-cases e user db) [
          | inl (missing, none_there) ↦ (
            ground arith,
            (
              λ yes. absurd (ground arith),
              λ has. elim has [
                | inl (owns, _) ↦ absurd (stranger owns)
                | inr (_, member, _) ↦ absurd (omega arith)
              ],
            ),
          )
          | inr (m, found, member) ↦ (
            ground arith,
            (
              λ yes. inr (stranger, member, ground arith),
              λ has. elim has [
                | inl (owns, _) ↦ absurd (stranger owns)
                | inr (_, _, listed) ↦ ground arith
              ],
            ),
          )
        ]
  ]

  rights-Decides :
      (ps : List WorkspacePermission) (user : User) (e : Entity) (db : Db) {b : Bool} {db' : Db}
      → HasUniqueKeys db
      → has_workspace_permissions ps user e db ≡ ok (b, db')
      → Decides b db db' (HoldsRights db user ps e)
  unfolding has_workspace_permissions
  rights-Decides ps user e db keys h =
      let shown = granted_all_iff e.id user.id db.workspace_permissions ps keys.rights in
      let counted = length-find_many (is_granted e.id user.id ps) db.workspace_permissions in
      elim (active-IsMember-cases e user db) [
        | inl (missing, none_there) ↦
            (ground arith, (λ yes. absurd (ground arith), λ has. absurd (omega (arith, has.0))))
        | inr (m, found, member) ↦ (
          ground arith,
          (
            λ yes. let all = shown.0 (ground (arith, counted)) in (member, all.0, all.1),
            λ has. ground (arith, counted, shown.1 (has.1, has.2)),
          ),
        )
      ]

  -- What is decided of an entity that is there is decided of the target.
  target-Decides :
      (target : Option Entity) (f : Entity → M Bool) (P : Entity → Type 0) (db : Db) {b : Bool}
      {db' : Db}
      → ((e : Entity) → f e db ≡ ok (b, db') → Decides b db db' (P e))
      → (target_of target >>= f) db ≡ ok (b, db')
      → Decides b db db' (IsThere target P)
  target-Decides none f P db decides h = absurd (cc)
  target-Decides (some e) f P db decides h =
      let (same, (to, from)) = decides e h in
      (
        same,
        (
          λ passed. (e, refl, to passed),
          λ (e', found, holds). from (subst P (sym (some-inj found)) holds),
        ),
      )
    where
      some-inj : {x y : Entity} → some x ≡ some y → x ≡ y
      some-inj eq = ground arith

  user_role-Decides :
      (roles : List UserRole) (user : User) (target : Option Entity)
      → ((includes_by role_index roles user.role && is_target user target) ≡ true)
        ↔ ((includes_by role_index roles user.role ≡ true) × IsTarget user target)
  user_role-Decides roles user none = (λ h. (ground arith, tt), λ h. ground (arith, h.0))
  user_role-Decides roles user (some e) =
      (λ h. (ground arith, ground arith), λ h. ground (arith, h.0, h.1))

  -- Whether a user satisfies a rule that is carried out without an error.
  pub execute_rule-Decides :
      (r : Rule) (user : User) (entities : Entities) (db : Db) {b : Bool} {db' : Db}
      → HasUniqueKeys db
      → execute_rule r user entities db ≡ ok (b, db')
      → Decides b db db' (Satisfies db user entities r)
  unfolding execute_rule
  execute_rule-Decides (Rule.self key) user entities db keys h =
      target-Decides (entities key) (λ e. pure (is_same_id user e)) (λ e. user.id ≡ e.id) db
        (λ e g. (cc, (λ passed. ground arith, λ same. ground arith))) h
  execute_rule-Decides (Rule.by_target AccessScope.user target none _) user entities db keys h =
      (ground arith, (λ passed. absurd (ground arith), λ never. absurd never))
  execute_rule-Decides (Rule.by_target AccessScope.user target (some roles) _) user entities db keys
        h =
      let shown = user_role-Decides roles user (get_target entities target) in
      (ground arith, (λ passed. shown.0 (ground arith), λ has. ground (arith, shown.1 has)))
  execute_rule-Decides (Rule.by_target AccessScope.workspace target _ none) user entities db keys
        h =
      absurd (ground arith)
  execute_rule-Decides (Rule.by_target AccessScope.workspace target _ (some [])) user entities db
        keys h =
      absurd (ground arith)
  execute_rule-Decides (Rule.by_target AccessScope.workspace target _ (some (x ∷ xs))) user entities
        db keys h =
      target-Decides (get_target entities target) (has_workspace_role (x ∷ xs) user)
        (HasRole db (x ∷ xs) user) db (λ e g. role-Decides (x ∷ xs) user e db g) (ground arith)
  execute_rule-Decides (Rule.permission ps) user entities db keys h =
      permissions-Decides user ps db keys h
  execute_rule-Decides (Rule.owner key) user entities db keys h =
      target-Decides (entities key) (λ e. pure (is_owner user e)) (Owns user) db
        (λ e g. (
          cc,
          (
            λ passed. (owner_iff user e).0 (ground arith),
            λ owns. ground (arith, (owner_iff user e).1 owns),
          ),
        ))
        h
  execute_rule-Decides (Rule.workspace_permission key []) user entities db keys h =
      absurd (ground arith)
  execute_rule-Decides (Rule.workspace_permission key (p ∷ ps)) user entities db keys h =
      target-Decides (entities key) (has_workspace_permissions (p ∷ ps) user)
        (HoldsRights db user (p ∷ ps)) db (λ e g. rights-Decides (p ∷ ps) user e db keys g)
        (ground arith)
