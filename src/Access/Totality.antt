-- ===== src/Access/Totality.antt =====
-- The rules that the services of src/access carry out without an error.
use cost_x.Base.{
  ℕ, ◌≡◌, refl, Bool, true, false, Option, none, some, List, [], ◌∷◌, arith, if◌then◌else◌,
}
use cost_x.Prisma.{Prisma}
use cost_x.Schema.{User, WorkspacePermission, Db}
use cost_x.Transaction.{M, ok, ◌>>=◌}
use cost_x.Access.Rules.{
  AccessScope, WorkspaceRole, Rule, RuleDef, RuleDefs, nil, cons, Entity, Entities, get_target,
}
use cost_x.Access.Strategies.{
  is_owner, target_of, holds_permissions, rights_of_member, has_workspace_role,
  has_workspace_permissions,
}
use cost_x.Access.Engine.{execute_rule, is_rule_match, match_all}

abbrev IsDefined : Option Entity → Type 0
IsDefined target = (e : Entity) × (target ≡ some e)

-- Every entity that the rule names is there, and its list of roles or permissions is not empty.
abbrev pub HasAnswer : Entities → Rule → Type 0
HasAnswer entities (Rule.self key) = IsDefined (entities key)
HasAnswer entities (Rule.by_target AccessScope.user target roles _) = Unit {0}
HasAnswer entities (Rule.by_target AccessScope.workspace target _ none) = ⊥
HasAnswer entities (Rule.by_target AccessScope.workspace target _ (some [])) = ⊥
HasAnswer entities (Rule.by_target AccessScope.workspace target _ (some (x ∷ xs))) =
    IsDefined (get_target entities target)
HasAnswer entities (Rule.permission ps) = Unit {0}
HasAnswer entities (Rule.owner key) = IsDefined (entities key)
HasAnswer entities (Rule.workspace_permission key []) = ⊥
HasAnswer entities (Rule.workspace_permission key (p ∷ ps)) = IsDefined (entities key)

unfoldable mutual
  pub IsAnswerable : Entities → RuleDef → Type 0
  IsAnswerable entities (RuleDef.rule r) = HasAnswer entities r
  IsAnswerable entities (RuleDef.array defs) = AllAnswerable entities defs
  IsAnswerable entities (RuleDef.or defs) = AllAnswerable entities defs
  IsAnswerable entities (RuleDef.and defs) = AllAnswerable entities defs

  pub AllAnswerable : Entities → RuleDefs → Type 0
  AllAnswerable entities nil = Unit {0}
  AllAnswerable entities (cons def defs) = IsAnswerable entities def × AllAnswerable entities defs

-- The call gives an answer and changes nothing.
abbrev pub Answers : {A : Type 0} → M A → Db → Type 0
Answers {A} m db = (a : A) × (m db ≡ ok (a, db))

pub bind-Answers :
    {A B : Type 0} (m : M A) (f : A → M B) (db : Db)
    → Answers m db
    → ((a : A) → Answers (f a) db)
    → Answers (m >>= f) db
bind-Answers m f db (a, h) answers = ((answers a).0, rw (h, ◌>>=◌) (answers a).1)

if-Answers :
    {A : Type 0} (test : Bool) (m k : M A) (db : Db)
    → Answers m db
    → Answers k db
    → Answers (if test then m else k) db
if-Answers true m k db first second = first
if-Answers false m k db first second = second

target-Answers :
    {A : Type 0} (target : Option Entity) (f : Entity → M A) (db : Db)
    → IsDefined target
    → ((e : Entity) → Answers (f e) db)
    → Answers (target_of target >>= f) db
target-Answers none f db (e, found) answers = absurd (ground arith)
target-Answers (some e) f db _ answers = answers e

module _ ⦃prisma : Prisma⦄ where
  role-Answers :
      (roles : List WorkspaceRole) (user : User) (e : Entity) (db : Db)
      → Answers (has_workspace_role roles user e) db
  unfolding has_workspace_role
  role-Answers roles user e db = if-Answers (is_owner user e) _ _ db (_, refl) (_, refl)

  rights_of_member-Answers :
      (is_member : Bool) (w : ℕ) (user : User) (ps : List WorkspacePermission) (db : Db)
      → Answers (rights_of_member is_member w user ps) db
  rights_of_member-Answers true w user ps db = (_, refl)
  rights_of_member-Answers false w user ps db = (_, refl)

  rights-Answers :
      (ps : List WorkspacePermission) (user : User) (e : Entity) (db : Db)
      → Answers (has_workspace_permissions ps user e) db
  unfolding has_workspace_permissions
  rights-Answers ps user e db = rights_of_member-Answers _ e.id user ps db

  rule-Answers :
      (r : Rule) (user : User) (entities : Entities) (db : Db)
      → HasAnswer entities r
      → Answers (execute_rule r user entities) db
  unfolding execute_rule holds_permissions
  rule-Answers (Rule.self key) user entities db defined =
      target-Answers (entities key) _ db defined (λ e. (_, refl))
  rule-Answers (Rule.by_target AccessScope.user target roles _) user entities db _ = (_, refl)
  rule-Answers (Rule.by_target AccessScope.workspace target _ none) user entities db never =
      absurd never
  rule-Answers (Rule.by_target AccessScope.workspace target _ (some [])) user entities db never =
      absurd never
  rule-Answers (Rule.by_target AccessScope.workspace target _ (some (x ∷ xs))) user entities db
        defined =
      let (a, given) =
        target-Answers (get_target entities target) (has_workspace_role (x ∷ xs) user) db defined
          (λ e. role-Answers (x ∷ xs) user e db) in
      (a, ground (arith, given))
  rule-Answers (Rule.permission ps) user entities db _ = (_, refl)
  rule-Answers (Rule.owner key) user entities db defined =
      target-Answers (entities key) _ db defined (λ e. (_, refl))
  rule-Answers (Rule.workspace_permission key []) user entities db never = absurd never
  rule-Answers (Rule.workspace_permission key (p ∷ ps)) user entities db defined =
      let (a, given) =
        target-Answers (entities key) (has_workspace_permissions (p ∷ ps) user) db defined
          (λ e. rights-Answers (p ∷ ps) user e db) in
      (a, ground (arith, given))

  mutual
    unfolding is_rule_match match_all IsAnswerable AllAnswerable

    pub def-Answers :
        (def : RuleDef) (user : User) (entities : Entities) (db : Db)
        → IsAnswerable entities def
        → Answers (is_rule_match def user entities) db
    def-Answers (RuleDef.rule r) user entities db h = rule-Answers r user entities db h
    def-Answers (RuleDef.array defs) user entities db h =
        bind-Answers (match_all defs user entities) _ db (all-Answers defs user entities db h)
          (λ rs. (_, refl))
    def-Answers (RuleDef.or defs) user entities db h =
        bind-Answers (match_all defs user entities) _ db (all-Answers defs user entities db h)
          (λ rs. (_, refl))
    def-Answers (RuleDef.and defs) user entities db h =
        bind-Answers (match_all defs user entities) _ db (all-Answers defs user entities db h)
          (λ rs. (_, refl))

    all-Answers :
        (defs : RuleDefs) (user : User) (entities : Entities) (db : Db)
        → AllAnswerable entities defs
        → Answers (match_all defs user entities) db
    all-Answers nil user entities db h = (_, refl)
    all-Answers (cons def defs) user entities db h =
        bind-Answers (is_rule_match def user entities) _ db (def-Answers def user entities db h.0)
          (λ r.
            bind-Answers (match_all defs user entities) _ db (all-Answers defs user entities db h.1)
              (λ rs. (_, refl)))
