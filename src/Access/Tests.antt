-- ===== src/Access/Tests.antt =====
-- Runs of the guard of src/access with the rule of a resolver, on a client that keeps lists.
use cost_x.Base.{◌≡◌, ◌⊎◌, refl, none, some, true, false, [], ◌∷◌, arith, count}
use cost_x.Prisma.Client.{in_memory}
use cost_x.Schema.{UserRole, admin, create_workspace, User, Db, empty}
use cost_x.Transaction.{ok, err, no_access}
use cost_x.Access.Rules.{AccessAction, AccessScope, Rule, RuleDef, nil, cons, Entities}
use cost_x.Access.Strategies.{holds_permissions}
use cost_x.Access.Engine.{execute_rule, is_rule_match, match_all, can_activate}
use cost_x.Access.Meaning.{HasUniqueKeys, IsAllowed}
use cost_x.Access.Totality.{IsAnswerable, AllAnswerable}
use cost_x.Access.Decision.{Decides}
use cost_x.Access.Policy.{is_rule_match-Decides, can_activate_lem}

abbrev caller : User
caller = record {
  id = 2;
  email = "a";
  password = "p";
  name = "n";
  role = UserRole.user;
  is_banned = false;
  confirm_email_temp_code = none;
  reset_password_temp_code = none;
}

-- Every key is inferred to be the caller.
abbrev entities : Entities
entities key = some (record { id = 2; owner_id = none })

-- `{ or: [{ and: [{ self: 'user' }, { permission: … }] }, { role: ADMIN, scope: USER }] }`
abbrev policy : RuleDef
policy = RuleDef.or (
    cons
      (RuleDef.and (
        cons (RuleDef.rule (Rule.self "user"))
          (cons (RuleDef.rule (Rule.permission (create_workspace ∷ []))) nil)))
      (cons (RuleDef.rule (Rule.by_target AccessScope.user none (some (admin ∷ [])) none)) nil))

abbrev tables : Db
tables = record empty {
  user_permissions = record { id = 1; user_id = 2; permission = create_workspace } ∷ [];
}

tables-HasUniqueKeys : HasUniqueKeys tables
unfolding count
tables-HasUniqueKeys = record { permissions = λ u p. ground arith; rights = λ w u p. omega arith }

policy-IsAnswerable : IsAnswerable entities policy
unfolding IsAnswerable AllAnswerable
policy-IsAnswerable = (((_, refl), (tt, tt)), (tt, tt))

policy_run : is_rule_match policy caller entities tables ≡ ok (true, tables)
unfolding is_rule_match match_all execute_rule holds_permissions count
policy_run = refl

is_rule_match-Decides_example : Decides true tables tables (IsAllowed tables caller entities policy)
is_rule_match-Decides_example =
    is_rule_match-Decides caller entities tables policy tables-HasUniqueKeys policy_run

can_activate_lem_example :
    (IsAllowed tables caller entities policy
      × (can_activate (some (AccessAction.allow, policy)) (some caller) entities tables
          ≡ ok (tt, tables))
      × (can_activate (some (AccessAction.deny, policy)) (some caller) entities tables
          ≡ err no_access))
    ⊎ ((¬ IsAllowed tables caller entities policy)
        × (can_activate (some (AccessAction.allow, policy)) (some caller) entities tables
            ≡ err no_access)
        × (can_activate (some (AccessAction.deny, policy)) (some caller) entities tables
            ≡ ok (tt, tables)))
can_activate_lem_example =
    can_activate_lem caller entities tables policy tables-HasUniqueKeys policy-IsAnswerable
