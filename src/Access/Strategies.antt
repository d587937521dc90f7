-- ===== src/Access/Strategies.antt =====
-- src/access/strategy. Reading a field of an entity that is `undefined` throws a TypeError.
use cost_x.Base.{
  ℕ, Bool, true, false, not, ◌&&◌, Option, none, some, List, [], ◌∷◌, length, ◌==◌, ltb, is_none,
  is_some, if◌then◌else◌, includes_by,
}
use cost_x.Prisma.{Prisma}
use cost_x.Schema.{
  User, role_index, Permission, permission_index, UserPermission, WorkspacePermission,
}
use cost_x.Transaction.{M, pure, throw, type_error, ◌>>=◌}
use cost_x.Delegate
use cost_x.Delegate.{find, list, total}
use cost_x.Membership.{is_active_member, is_granted}
use cost_x.Access.Rules.{
  AccessScope, scope_index, WorkspaceRole, workspace_role_index, Entity, ResolvedRule,
}

-- `interface AccessStrategy`
pub record Strategy : Type 0 where
  pub is_applicable : ResolvedRule → Bool
  pub execute_rule : ResolvedRule → M Bool

-- `rule.<list>?.length ?? 0`
abbrev pub size : {A : Type 0} → Option (List A) → ℕ
size none = 0
size (some xs) = length xs

-- `rule.<list>`, empty if it is `undefined`
abbrev pub entries : {A : Type 0} → Option (List A) → List A
entries none = []
entries (some xs) = xs

abbrev pub in_scope : AccessScope → ResolvedRule → Bool
in_scope scope rule = scope_index rule.scope == scope_index scope

-- `sourceUser.id === targetEntity.id`
abbrev pub is_same_id : User → Entity → Bool
is_same_id user entity = user.id == entity.id

-- `workspace.ownerId === currentUser.id`
abbrev pub is_owner : User → Entity → Bool
is_owner user entity = elim entity.owner_id [ none ↦ false | some id ↦ id == user.id ]

-- `targetEntity` as the object that the strategy casts it to
abbrev pub target_of : Option Entity → M Entity
target_of none = throw type_error
target_of (some e) = pure e

-- `if (rule.targetEntity !== undefined) { … }`
abbrev pub is_target : User → Option Entity → Bool
is_target user none = true
is_target user (some e) = is_same_id user e

abbrev pub user_role_access_strategy : Strategy
user_role_access_strategy = record {
  is_applicable =
      λ rule. in_scope AccessScope.user rule && (is_none rule.permissions && not rule.self);
  execute_rule = λ rule. pure (
      includes_by role_index (entries rule.role) rule.source_entity.role
      && is_target rule.source_entity rule.target_entity);
}

abbrev pub user_self_access_strategy : Strategy
user_self_access_strategy = record {
  is_applicable = λ rule. in_scope AccessScope.user rule && rule.self;
  execute_rule = λ rule.
      target_of rule.target_entity >>= λ target. pure (is_same_id rule.source_entity target);
}

-- `{ permission: { in: permissions }, userId }`
abbrev pub is_user_permission : ℕ → List Permission → UserPermission → Bool
is_user_permission user_id permissions p =
    includes_by permission_index permissions p.permission && p.user_id == user_id

abbrev pub workspace_owner_access_strategy : Strategy
workspace_owner_access_strategy = record {
  is_applicable = λ rule. in_scope AccessScope.workspace rule && rule.owner_check;
  execute_rule =
      λ rule. target_of rule.target_entity >>= λ target. pure (is_owner rule.source_entity target);
}

module _ ⦃prisma : Prisma⦄ where
  unfoldable pub holds_permissions : User → List Permission → M Bool
  holds_permissions user permissions = do
    held ← total Delegate.user_permission (is_user_permission user.id permissions)
    pure (held == length permissions)

  abbrev pub user_permission_access_strategy : Strategy
  user_permission_access_strategy = record {
    is_applicable = λ rule. in_scope AccessScope.user rule && is_some rule.permissions;
    execute_rule = λ rule. holds_permissions rule.source_entity (entries rule.permissions);
  }

  -- The `if (workspace.ownerId === currentUser.id)` of the strategy, with the role it finds.
  unfoldable pub has_workspace_role : List WorkspaceRole → User → Entity → M Bool
  has_workspace_role roles user workspace =
      if is_owner user workspace
      then pure (includes_by workspace_role_index roles WorkspaceRole.owner)
      else (do
        member ← find Delegate.workspace_member (is_active_member workspace.id user.id)
        pure (is_some member && includes_by workspace_role_index roles WorkspaceRole.member))

  abbrev pub user_to_workspace_access_strategy : Strategy
  user_to_workspace_access_strategy = record {
    is_applicable = λ rule. in_scope AccessScope.workspace rule && ltb 0 (size rule.workspace_role);
    execute_rule = λ rule.
        target_of rule.target_entity
        >>= has_workspace_role (entries rule.workspace_role) rule.source_entity;
  }

  -- An actor who is no active member has nothing looked up.
  abbrev pub rights_of_member : Bool → ℕ → User → List WorkspacePermission → M Bool
  rights_of_member false workspace_id user permissions = pure false
  rights_of_member true workspace_id user permissions = do
    granted ← list Delegate.user_workspace_permission (is_granted workspace_id user.id permissions)
    pure (length granted == length permissions)

  unfoldable pub has_workspace_permissions : List WorkspacePermission → User → Entity → M Bool
  has_workspace_permissions permissions user workspace = do
    member ← find Delegate.workspace_member (is_active_member workspace.id user.id)
    rights_of_member (is_some member) workspace.id user permissions

  abbrev pub workspace_permission_access_strategy : Strategy
  workspace_permission_access_strategy = record {
    is_applicable =
        λ rule. in_scope AccessScope.workspace rule && ltb 0 (size rule.workspace_permissions);
    execute_rule = λ rule.
        target_of rule.target_entity
        >>= has_workspace_permissions (entries rule.workspace_permissions) rule.source_entity;
  }

  -- The order in which src/access/access.module.ts provides them.
  abbrev pub strategies : List Strategy
  strategies =
      user_role_access_strategy ∷ user_self_access_strategy ∷ user_permission_access_strategy
      ∷ user_to_workspace_access_strategy ∷ workspace_owner_access_strategy
      ∷ workspace_permission_access_strategy ∷ []
