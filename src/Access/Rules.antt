-- ===== src/Access/Rules.antt =====
-- src/access/decorator/access.decorator.ts and src/access/interfaces.ts: the rules that a resolver
-- is decorated with. A field `T | T[]` is a list, as `executeRule` makes it before it is read.
use cost_x.Base.{ℕ, Bool, Option, none, some, List, String}
use cost_x.Schema.{UserRole, Permission, WorkspacePermission, User}

pub data AccessAction : Type 0 where
  allow deny : AccessAction

pub data AccessScope : Type 0 where
  user workspace : AccessScope

abbrev pub scope_index : AccessScope → ℕ
scope_index AccessScope.user = 0
scope_index AccessScope.workspace = 1

pub data WorkspaceRole : Type 0 where
  owner member : WorkspaceRole

abbrev pub workspace_role_index : WorkspaceRole → ℕ
workspace_role_index WorkspaceRole.owner = 0
workspace_role_index WorkspaceRole.member = 1

-- The union `Rule`, a constructor for each of its interfaces: `SelfRule`, `TargetRule`,
-- `PermissionRule`, `WorkspaceOwnerRule`, `WorkspacePermissionRule`. The tests `'self' in rule`, …
-- tell them apart.
pub data Rule : Type 0 where
  self : String → Rule
  by_target :
      AccessScope → Option String → Option (List UserRole) → Option (List WorkspaceRole) → Rule
  permission : List Permission → Rule
  owner : String → Rule
  workspace_permission : String → List WorkspacePermission → Rule

-- `RuleDef`: a rule, an array, `{ or: … }` or `{ and: … }`
mutual
  pub data RuleDef : Type 0 where
    rule : Rule → RuleDef
    array : RuleDefs → RuleDef
    or : RuleDefs → RuleDef
    and : RuleDefs → RuleDef

  pub data RuleDefs : Type 0 where
    nil : RuleDefs
    cons : RuleDef → RuleDefs → RuleDefs

-- What the strategies read of an inferred entity: its `id`, and its `ownerId` if it has one.
pub record Entity : Type 0 where
  pub id : ℕ
  pub owner_id : Option ℕ

-- `Map<string, unknown>`; `none` is `undefined`.
abbrev pub Entities : Type 0
Entities = String → Option Entity

-- `...(target !== undefined && { targetEntity: inferredEntities.get(target) })`
abbrev pub get_target : Entities → Option String → Option Entity
get_target entities none = none
get_target entities (some key) = entities key

-- `ResolvedRule`; a flag that is left out is false.
pub record ResolvedRule : Type 0 where
  pub source_entity : User
  pub scope : AccessScope
  pub target_entity : Option Entity
  pub role : Option (List UserRole)
  pub workspace_role : Option (List WorkspaceRole)
  pub self : Bool
  pub permissions : Option (List Permission)
  pub owner_check : Bool
  pub workspace_permissions : Option (List WorkspacePermission)
