-- ===== src/Membership/Grants.antt =====
-- Writing permissions: what `createMany` does to the rights, with and without `skipDuplicates`.
use cost_x.Base.{
  ℕ, ◌<◌, ◌≡◌, refl, sym, ◌∙◌, inl, inr, true, false, List, [], ◌∷◌, map, arith, count,
  includes_index, zero-cases, Bool-cases,
}
use cost_x.Prisma.{Prisma}
use cost_x.Schema.{WorkspacePermission, workspace_permission_index, Db}
use cost_x.Transaction.{Result, ok, err, unique_constraint_violation}
use cost_x.Delegate
use cost_x.Delegate.{create, create_many, create_missing}
use cost_x.Membership.Where.{includes}
use cost_x.Membership.Permissions.{right}
use cost_x.Membership.Rights.{is_right, IsDistinct}
use cost_x.Membership.Gains.{
  Gains, Gains-nil, Gains-cons, Gains-held, Gains-step, create-right, create-right_twice,
  with_right, is_right_index, with_right-count,
}

module _ ⦃prisma : Prisma⦄ (w u : ℕ) where
  abbrev many : List WorkspacePermission → Db → Result (Unit {0} × Db)
  many ps = create_many Delegate.user_workspace_permission (map (right w u) ps)

  abbrev missing : List WorkspacePermission → Db → Result (Unit {0} × Db)
  missing ps = create_missing Delegate.user_workspace_permission (map (right w u) ps)

  many_new :
      (p : WorkspacePermission) (ps : List WorkspacePermission) (db : Db)
      → count (is_right w u p) db.workspace_permissions ≡ 0
      → many (p ∷ ps) db ≡ many ps (with_right w u p db)
  unfolding create_many
  many_new p ps db new = rw (create-right w u p db new, create_many)

  many_held :
      (p : WorkspacePermission) (ps : List WorkspacePermission) (db : Db)
      → 0 < count (is_right w u p) db.workspace_permissions
      → many (p ∷ ps) db ≡ err unique_constraint_violation
  unfolding create_many
  many_held p ps db held = rw (create-right_twice w u p db held, create_many)

  missing_new :
      (p : WorkspacePermission) (ps : List WorkspacePermission) (db : Db)
      → count (is_right w u p) db.workspace_permissions ≡ 0
      → missing (p ∷ ps) db ≡ missing ps (with_right w u p db)
  unfolding create_missing
  missing_new p ps db new = rw (create-right w u p db new, create_missing)

  missing_held :
      (p : WorkspacePermission) (ps : List WorkspacePermission) (db : Db)
      → 0 < count (is_right w u p) db.workspace_permissions
      → missing (p ∷ ps) db ≡ missing ps db
  unfolding create_missing
  missing_held p ps db held = rw (create-right_twice w u p db held, create_missing)

  many_nil : (db : Db) → many [] db ≡ ok (tt, db)
  unfolding create_many
  many_nil db = refl

  missing_nil : (db : Db) → missing [] db ≡ ok (tt, db)
  unfolding create_missing
  missing_nil db = refl

  -- `createMany` that comes through has added every permission of the list.
  pub create_many-Gains :
      (ps : List WorkspacePermission) (db : Db) {db' : Db}
      → many ps db ≡ ok (tt, db')
      → Gains w u ps db db'
  create_many-Gains [] db {db'} h = let e : db' ≡ db = cc (many_nil db) in rw e (Gains-nil w u db)
  create_many-Gains (p ∷ ps) db h =
      elim (zero-cases (count (is_right w u p) db.workspace_permissions)) [
        | inl new ↦
            Gains-cons (Gains-step w u p db new)
              (create_many-Gains ps (with_right w u p db) (cc (many_new p ps db new)))
        | inr held ↦ absurd (cc (many_held p ps db held))
      ]

  -- `createMany` fails as a whole where one of the permissions is held already.
  pub create_many_twice :
      (p : WorkspacePermission) (ps : List WorkspacePermission) (db : Db)
      → includes ps p ≡ true
      → 0 < count (is_right w u p) db.workspace_permissions
      → many ps db ≡ err unique_constraint_violation
  create_many_twice p [] db listed held = cc
  create_many_twice p (q ∷ qs) db listed held =
      elim (zero-cases (count (is_right w u q) db.workspace_permissions)) [
        | inl new ↦
            many_new q qs db new
            ∙ create_many_twice p qs (with_right w u q db)
                (ground (arith, is_right_index w u q p db.workspace_permissions))
                (omega (arith, (Gains-step w u q db new).more p))
        | inr there ↦ many_held q qs db there
      ]

  -- `createMany` that comes through was given no permission twice and none that was held.
  pub create_many-IsDistinct :
      (ps : List WorkspacePermission) (db : Db) {db' : Db}
      → many ps db ≡ ok (tt, db')
      → IsDistinct ps
  create_many-IsDistinct [] db h = tt
  create_many-IsDistinct (p ∷ ps) db h =
      elim (zero-cases (count (is_right w u p) db.workspace_permissions)) [
        | inl new ↦
            let rest = sym (many_new p ps db new) ∙ h in
            (
              elim (Bool-cases (includes ps p)) [
                | inl again ↦ absurd (
                    cc (
                      create_many_twice p ps (with_right w u p db) again
                        (ground (arith, with_right-count w u (is_right w u p) p db))))
                | inr once ↦ once
              ],
              create_many-IsDistinct ps (with_right w u p db) rest,
            )
        | inr held ↦ absurd (cc (many_held p ps db held))
      ]

  pub create_many-new :
      (ps : List WorkspacePermission) (db : Db) {db' : Db} (p : WorkspacePermission)
      → many ps db ≡ ok (tt, db')
      → includes ps p ≡ true
      → count (is_right w u p) db.workspace_permissions ≡ 0
  create_many-new ps db p h listed =
      elim (zero-cases (count (is_right w u p) db.workspace_permissions)) [
        | inl new ↦ new
        | inr held ↦ absurd (cc (create_many_twice p ps db listed held))
      ]

  -- Adding the first permission takes no place of another one.
  still_free :
      (p : WorkspacePermission) (ps : List WorkspacePermission) (db : Db)
      → includes ps p ≡ false
      → ((x : WorkspacePermission)
          → includes (p ∷ ps) x ≡ true
          → count (is_right w u x) db.workspace_permissions ≡ 0)
      → (x : WorkspacePermission) → includes ps x ≡ true
      → count (is_right w u x) (with_right w u p db).workspace_permissions ≡ 0
  still_free p ps db new free x listed = ground (
    arith,
    free x,
    includes_index workspace_permission_index ps x p,
    (Gains-step w u p db (free p (ground arith))).unlisted x,
  )

  -- `createMany` of distinct permissions that are not held comes through.
  pub create_many_total :
      (ps : List WorkspacePermission) (db : Db)
      → IsDistinct ps
      → ((p : WorkspacePermission)
          → includes ps p ≡ true
          → count (is_right w u p) db.workspace_permissions ≡ 0)
      → (db' : Db) × (many ps db ≡ ok (tt, db'))
  create_many_total [] db distinct free = (db, many_nil db)
  create_many_total (p ∷ ps) db (new, distinct) free =
      let (db', run) =
        create_many_total ps (with_right w u p db) distinct (still_free p ps db new free) in
      (db', many_new p ps db (free p (ground arith)) ∙ run)

  -- With `skipDuplicates` it always comes through.
  pub create_missing-Gains :
      (ps : List WorkspacePermission) (db : Db)
      → (db' : Db) × (missing ps db ≡ ok (tt, db')) × Gains w u ps db db'
  create_missing-Gains [] db = (db, missing_nil db, Gains-nil w u db)
  create_missing-Gains (p ∷ ps) db =
      elim (zero-cases (count (is_right w u p) db.workspace_permissions)) [
        | inl new ↦
            let (db', run, gains) = create_missing-Gains ps (with_right w u p db) in
            (db', missing_new p ps db new ∙ run, Gains-cons (Gains-step w u p db new) gains)
        | inr held ↦
            let (db', run, gains) = create_missing-Gains ps db in
            (db', missing_held p ps db held ∙ run, Gains-held p held gains)
      ]
