-- ===== src/Access/Policy.antt =====
-- The decorated resolvers: what `AccessGuard` and `AccessService.hasAccess` of src/access let pass.
use cost_x.Base.{
  ◌≡◌, refl, sym, ◌∙◌, ◌↔◌, ◌⊎◌, inl, inr, Bool, true, false, some, List, ◌∷◌, arith, Bool-cases,
}
use cost_x.Prisma.{Prisma}
use cost_x.Schema.{User, Db}
use cost_x.Transaction.{pure, ok, err, no_access, through}
use cost_x.Access.Rules.{AccessAction, RuleDef, RuleDefs, nil, cons, Entities}
use cost_x.Access.Engine.{is_rule_match, match_all, has_access, can_activate, some_of, every_of}
use cost_x.Access.Meaning.{HasUniqueKeys, IsAllowed, AnyAllowed, AllAllowed}
use cost_x.Access.Decision.{Decides, execute_rule-Decides}
use cost_x.Access.Totality.{IsAnswerable, def-Answers}

module _ ⦃prisma : Prisma⦄ (user : User) (entities : Entities) (db : Db) where
  -- The answers for a list of definitions.
  abbrev AllDecide : RuleDefs → List Bool → Db → Type 0
  AllDecide defs bs db' =
      (db' ≡ db)
      × ((some_of bs ≡ true) ↔ AnyAllowed db user entities defs)
      × ((every_of bs ≡ true) ↔ AllAllowed db user entities defs)

  decide_cons :
      (def : RuleDef) (defs : RuleDefs) (b : Bool) (bs : List Bool)
      → Decides b db db (IsAllowed db user entities def)
      → AllDecide defs bs db
      → AllDecide (cons def defs) (b ∷ bs) db
  unfolding IsAllowed AnyAllowed AllAllowed
  decide_cons def defs true bs (s, first) (s', any, all) = (
    s,
    (λ h. inl (first.0 (ground arith)), λ h. ground arith),
    (λ h. (first.0 (ground arith), all.0 h), λ h. all.1 h.1),
  )
  decide_cons def defs false bs (s, first) (s', any, all) = (
    s,
    (
      λ h. inr (any.0 h),
      λ h. elim h [ inl now ↦ absurd (ground (arith, first.1 now)) | inr later ↦ any.1 later ],
    ),
    (λ h. absurd (ground arith), λ h. absurd (ground (arith, first.1 h.0))),
  )

  answer :
      {P : Type 0} {r b : Bool} {between db' : Db}
      → between ≡ db
      → (r ≡ true) ↔ P
      → pure r between ≡ ok (b, db')
      → Decides b db db' P
  answer {P} {r} {b} same shown h =
      let e : b ≡ r = cc in (cc, (λ passed. shown.0 (sym e ∙ passed), λ holds. e ∙ shown.1 holds))

  answers :
      (defs : RuleDefs) {rs bs : List Bool} {between db' : Db}
      → between ≡ db
      → AllDecide defs rs db
      → pure rs between ≡ ok (bs, db')
      → AllDecide defs bs db'
  answers defs {rs} {bs} {db' = db'} same shown h =
      let e : bs ≡ rs = cc in let e' : db' ≡ db = cc in rw (e, e') shown

  mutual
    unfolding is_rule_match match_all IsAllowed AnyAllowed AllAllowed

    def-Decides :
        (def : RuleDef) {b : Bool} {db' : Db}
        → HasUniqueKeys db
        → is_rule_match def user entities db ≡ ok (b, db')
        → Decides b db db' (IsAllowed db user entities def)
    def-Decides (RuleDef.rule r) keys h = execute_rule-Decides r user entities db keys h
    def-Decides (RuleDef.array defs) keys h =
        through (match_all defs user entities) _ db h λ bs between matched rest.
          let (same, any, all) = match_all-Decides defs keys matched in answer same any rest
    def-Decides (RuleDef.or defs) keys h =
        through (match_all defs user entities) _ db h λ bs between matched rest.
          let (same, any, all) = match_all-Decides defs keys matched in answer same any rest
    def-Decides (RuleDef.and defs) keys h =
        through (match_all defs user entities) _ db h λ bs between matched rest.
          let (same, any, all) = match_all-Decides defs keys matched in answer same all rest

    match_all-Decides :
        (defs : RuleDefs) {bs : List Bool} {db' : Db}
        → HasUniqueKeys db
        → match_all defs user entities db ≡ ok (bs, db')
        → AllDecide defs bs db'
    match_all-Decides nil keys h = (
      cc,
      (λ some_true. absurd (ground arith), λ never. absurd never),
      (λ every_true. tt, λ every. ground arith),
    )
    match_all-Decides (cons def defs) keys h =
        through (is_rule_match def user entities) _ db h λ b between matched rest.
          let first = def-Decides def keys matched in
          through (match_all defs user entities) _ between rest λ bs after all_matched last.
            let (same, any, all) = match_all-Decides defs keys (rw (first.0) at all_matched) in
            answers (cons def defs) same
              (decide_cons def defs b bs (refl, first.1) (refl, any, all)) last

  -- With unique keys, a rule definition that is evaluated without an error is decided as it is
  -- meant, and nothing is changed.
  pub is_rule_match-Decides :
      (def : RuleDef) {b : Bool} {db' : Db}
      → HasUniqueKeys db
      → is_rule_match def user entities db ≡ ok (b, db')
      → Decides b db db' (IsAllowed db user entities def)
  is_rule_match-Decides def keys h = def-Decides def keys h

  -- With unique keys and every entity of an answerable definition there, the guard of a resolver
  -- that allows a definition lets exactly those users pass who are allowed, one that denies it
  -- exactly those who are not, everybody else gets `no_access`, and no table is changed.
  pub can_activate_lem :
      (def : RuleDef)
      → HasUniqueKeys db
      → IsAnswerable entities def
      → (IsAllowed db user entities def
          × (can_activate (some (AccessAction.allow, def)) (some user) entities db ≡ ok (tt, db))
          × (can_activate (some (AccessAction.deny, def)) (some user) entities db ≡ err no_access))
        ⊎ ((¬ IsAllowed db user entities def)
            × (can_activate (some (AccessAction.allow, def)) (some user) entities db
                ≡ err no_access)
            × (can_activate (some (AccessAction.deny, def)) (some user) entities db ≡ ok (tt, db)))
  unfolding can_activate has_access
  can_activate_lem def keys answerable =
      let (b, h) = def-Answers def user entities db answerable in
      let shown = (def-Decides def keys h).1 in
      elim (Bool-cases b) [
        | inl passed ↦ inl (shown.0 passed, ground (arith, h, passed), ground (arith, h, passed))
        | inr failed ↦ inr (
          λ allowed. absurd (ground (arith, failed, shown.1 allowed)),
          ground (arith, h, failed),
          ground (arith, h, failed),
        )
      ]
