-- ===== src/Access/Engine.antt =====
-- src/access/rule-engine.service.ts, src/access/access.service.ts and the guard. The subrules of a
-- rule run side by side (`Promise.all`); they only read, so one after the other gives the same, and
-- an error of any of them is an error of the whole.
use cost_x.Base.{
  Bool, true, false, not, ◌&&◌, ◌||◌, Option, none, some, List, [], ◌∷◌, if◌then◌else◌,
}
use cost_x.Prisma.{Prisma}
use cost_x.Schema.{User}
use cost_x.Transaction.{M, pure, throw, throw_if, internal_server_error, no_access, ◌>>=◌}
use cost_x.Access.Rules.{
  AccessAction, AccessScope, Rule, RuleDef, RuleDefs, nil, cons, Entities, ResolvedRule, get_target,
}
use cost_x.Access.Strategies.{Strategy, strategies}

-- `this.strategies.find(…)` and the call of what is found
abbrev pub run_first : List Strategy → ResolvedRule → M Bool
run_first [] rule = throw internal_server_error
run_first (s ∷ rest) rule =
    if s.is_applicable rule then s.execute_rule rule else run_first rest rule

-- `{ sourceEntity: currentUser, scope }`, the fields of the rule left out
abbrev plain : User → AccessScope → ResolvedRule
plain user scope = record {
  source_entity = user;
  scope = scope;
  target_entity = none;
  role = none;
  workspace_role = none;
  self = false;
  permissions = none;
  owner_check = false;
  workspace_permissions = none;
}

-- What `executeRule` and `normalizeTargetRule` of `AccessService` make of a rule.
abbrev pub resolve : Rule → User → Entities → ResolvedRule
resolve (Rule.self key) user entities = record (plain user AccessScope.user) {
  self = true;
  target_entity = entities key;
}
resolve (Rule.by_target scope target roles workspace_roles) user entities =
    record (plain user scope) {
      role = roles;
      workspace_role = workspace_roles;
      target_entity = get_target entities target;
    }
resolve (Rule.permission permissions) user entities = record (plain user AccessScope.user) {
  permissions = some permissions;
}
resolve (Rule.owner key) user entities = record (plain user AccessScope.workspace) {
  owner_check = true;
  target_entity = entities key;
}
resolve (Rule.workspace_permission key permissions) user entities =
    record (plain user AccessScope.workspace) {
      workspace_permissions = some permissions;
      target_entity = entities key;
    }

-- `results.some((r) => r)`, `results.every((r) => r)`
abbrev pub some_of : List Bool → Bool
some_of [] = false
some_of (r ∷ rs) = r || some_of rs

abbrev pub every_of : List Bool → Bool
every_of [] = true
every_of (r ∷ rs) = r && every_of rs

module _ ⦃prisma : Prisma⦄ where
  unfoldable pub execute_rule : Rule → User → Entities → M Bool
  execute_rule rule user entities = run_first strategies (resolve rule user entities)

  unfoldable mutual
    pub is_rule_match : RuleDef → User → Entities → M Bool
    is_rule_match (RuleDef.rule r) user entities = execute_rule r user entities
    is_rule_match (RuleDef.array defs) user entities =
        match_all defs user entities >>= λ results. pure (some_of results)
    is_rule_match (RuleDef.or defs) user entities =
        match_all defs user entities >>= λ results. pure (some_of results)
    is_rule_match (RuleDef.and defs) user entities =
        match_all defs user entities >>= λ results. pure (every_of results)

    -- `Promise.all(defs.map((sub) => this.isRuleMatch(sub, …)))`
    pub match_all : RuleDefs → User → Entities → M (List Bool)
    match_all nil user entities = pure []
    match_all (cons def defs) user entities = do
      r ← is_rule_match def user entities
      rs ← match_all defs user entities
      pure (r ∷ rs)

  -- `hasAccess`, for the entities that it has resolved
  unfoldable pub has_access : AccessAction → RuleDef → User → Entities → M Bool
  has_access AccessAction.allow def user entities = is_rule_match def user entities
  has_access AccessAction.deny def user entities =
      is_rule_match def user entities >>= λ matches. pure (not matches)

  -- `AccessGuard.canActivate`: without metadata the resolver is open, without a user it is closed.
  unfoldable pub can_activate :
      Option (AccessAction × RuleDef) → Option User → Entities → M (Unit {0})
  can_activate none user entities = pure tt
  can_activate (some metadata) none entities = throw no_access
  can_activate (some (action, def)) (some user) entities = do
    has ← has_access action def user entities
    throw_if (not has) no_access
