-- ===== src/Access/Meaning.antt =====
-- What the rules of src/access mean, said of the tables without the services: who satisfies a rule.
use cost_x.Base.{
  ℕ, ◌≡◌, ◌≤◌, ◌<◌, ◌⊎◌, Bool, true, Option, none, some, List, count, ◌==◌, includes_by, HoldsAllBy,
  IsDistinctBy, is_held,
}
use cost_x.Schema.{
  User, role_index, Permission, permission_index, UserPermission, WorkspacePermission, Db,
}
use cost_x.Membership.{is_active_member}
use cost_x.Membership.Rights.{HasUniqueRights, HoldsAll, IsDistinct}
use cost_x.Access.Rules.{
  AccessScope, WorkspaceRole, workspace_role_index, Rule, RuleDef, RuleDefs, nil, cons, Entity,
  Entities, get_target,
}

-- `{ userId }`
abbrev pub is_permission_of : ℕ → UserPermission → Bool
is_permission_of user_id p = p.user_id == user_id

-- `@@unique([userId, permission])`
abbrev pub HasUniquePermissions : List UserPermission → Type 0
HasUniquePermissions rows =
    (u : ℕ) (p : Permission)
    → count (is_held permission_index (λ r. r.permission) (is_permission_of u) rows p) rows ≤ 1

-- The unique keys of the two tables of permissions.
pub record HasUniqueKeys (db : Db) : Type 0 where
  pub permissions : HasUniquePermissions db.user_permissions
  pub rights : HasUniqueRights db.workspace_permissions

-- The entity of the key is there, and is as said.
abbrev pub IsThere : Option Entity → (Entity → Type 0) → Type 0
IsThere entity P = (e : Entity) × (entity ≡ some e) × P e

abbrev pub Owns : User → Entity → Type 0
Owns user e = e.owner_id ≡ some user.id

abbrev pub IsMember : Db → User → Entity → Type 0
IsMember db user e = 0 < count (is_active_member e.id user.id) db.workspace_members

-- The owner is checked for the role of the owner only.
abbrev pub HasRole : Db → List WorkspaceRole → User → Entity → Type 0
HasRole db roles user e =
    (Owns user e × (includes_by workspace_role_index roles WorkspaceRole.owner ≡ true))
    ⊎ ((¬ Owns user e)
        × IsMember db user e
        × (includes_by workspace_role_index roles WorkspaceRole.member ≡ true))

abbrev pub HoldsPermissions : Db → User → List Permission → Type 0
HoldsPermissions db user ps =
    HoldsAllBy permission_index (λ (r : UserPermission). r.permission) (is_permission_of user.id)
      db.user_permissions ps
    × IsDistinctBy permission_index ps

abbrev pub HoldsRights : Db → User → List WorkspacePermission → Entity → Type 0
HoldsRights db user ps e =
    IsMember db user e × HoldsAll e.id user.id ps db.workspace_permissions × IsDistinct ps

-- A target that is not there is not asked for.
abbrev pub IsTarget : User → Option Entity → Type 0
IsTarget user none = Unit {0}
IsTarget user (some e) = user.id ≡ e.id

-- Who satisfies one rule.
abbrev pub Satisfies : Db → User → Entities → Rule → Type 0
Satisfies db user entities (Rule.self key) = IsThere (entities key) (λ e. user.id ≡ e.id)
Satisfies db user entities (Rule.by_target AccessScope.user target none _) = ⊥
Satisfies db user entities (Rule.by_target AccessScope.user target (some roles) _) =
    (includes_by role_index roles user.role ≡ true) × IsTarget user (get_target entities target)
Satisfies db user entities (Rule.by_target AccessScope.workspace target _ none) = ⊥
Satisfies db user entities (Rule.by_target AccessScope.workspace target _ (some roles)) =
    IsThere (get_target entities target) (HasRole db roles user)
Satisfies db user entities (Rule.permission ps) = HoldsPermissions db user ps
Satisfies db user entities (Rule.owner key) = IsThere (entities key) (Owns user)
Satisfies db user entities (Rule.workspace_permission key ps) =
    IsThere (entities key) (HoldsRights db user ps)

-- Who satisfies a definition: an array and `or` ask for one of their parts, `and` for all.
unfoldable mutual
  pub IsAllowed : Db → User → Entities → RuleDef → Type 0
  IsAllowed db user entities (RuleDef.rule r) = Satisfies db user entities r
  IsAllowed db user entities (RuleDef.array defs) = AnyAllowed db user entities defs
  IsAllowed db user entities (RuleDef.or defs) = AnyAllowed db user entities defs
  IsAllowed db user entities (RuleDef.and defs) = AllAllowed db user entities defs

  pub AnyAllowed : Db → User → Entities → RuleDefs → Type 0
  AnyAllowed db user entities nil = ⊥
  AnyAllowed db user entities (cons def defs) =
      IsAllowed db user entities def ⊎ AnyAllowed db user entities defs

  pub AllAllowed : Db → User → Entities → RuleDefs → Type 0
  AllAllowed db user entities nil = Unit {0}
  AllAllowed db user entities (cons def defs) =
      IsAllowed db user entities def × AllAllowed db user entities defs
