-- ===== src/Delegate.antt =====
-- The calls `tx.<model>.<method>(…)` of the services: a delegate reads and writes one table of the
-- state by the client. An operation on one row that is not there throws (P2025), and so does a
-- row that a `@@unique` of prisma/schema.prisma forbids (P2002, passed on by
-- src/prisma/error/db-exception.interceptor.ts).
mod Models
pub mod Laws
pub use Models.*
use cost_x.Base.{ℕ, Bool, Option, none, some, List, [], ◌∷◌}
use cost_x.Prisma.{Prisma}
use cost_x.Transaction.{M, Result, ok, err, record_not_found, unique_constraint_violation}

module _ {Row : Type 0} ⦃prisma : Prisma⦄ where
  open prisma use {find_first, find_many, count_rows, insert_row, update_rows, delete_rows, next_id}

  -- `findFirst({ where })`, `findUnique({ where })`
  abbrev pub find : Model Row → (Row → Bool) → M (Option Row)
  find m p db = ok (find_first p (m.rows db), db)

  -- `findUniqueOrThrow({ where })`
  abbrev pub find_or_throw : Model Row → (Row → Bool) → M Row
  find_or_throw m p db = elim (find_first p (m.rows db)) [
    | none ↦ err record_not_found
    | some r ↦ ok (r, db)
  ]

  -- `findMany({ where })`
  abbrev pub list : Model Row → (Row → Bool) → M (List Row)
  list m p db = ok (find_many p (m.rows db), db)

  -- `count({ where })`
  abbrev pub total : Model Row → (Row → Bool) → M ℕ
  total m p db = ok (count_rows p (m.rows db), db)

  -- `create({ data })`: `make` is the row but for its id.
  unfoldable pub create : Model Row → (ℕ → Row) → M Row
  create m make db =
      let row = make (next_id m.id (m.rows db)) in
      elim (find_first (m.clashes row) (m.rows db)) [
        | some _ ↦ err unique_constraint_violation
        | none ↦ ok (row, m.put (insert_row row (m.rows db)) db)
      ]

  -- `createMany({ data })`
  unfoldable pub create_many : Model Row → List (ℕ → Row) → M (Unit {0})
  create_many m [] db = ok (tt, db)
  create_many m (make ∷ rest) db = elim (create m make db) [
    | ok (_, db') ↦ create_many m rest db'
    | err e ↦ err e
  ]

  -- `createMany({ data, skipDuplicates: true })`
  unfoldable pub create_missing : Model Row → List (ℕ → Row) → M (Unit {0})
  create_missing m [] db = ok (tt, db)
  create_missing m (make ∷ rest) db = elim (create m make db) [
    | ok (_, db') ↦ create_missing m rest db'
    | err e ↦ create_missing m rest db
  ]

  -- `update({ where, data })` gives the row as it is afterwards.
  abbrev pub update_one : Model Row → (Row → Bool) → (Row → Row) → M Row
  update_one m p f db = elim (find_first p (m.rows db)) [
    | none ↦ err record_not_found
    | some r ↦ ok (f r, m.put (update_rows p f (m.rows db)) db)
  ]

  -- `updateMany({ where, data })`
  abbrev pub update_many : Model Row → (Row → Bool) → (Row → Row) → M (Unit {0})
  update_many m p f db = ok (tt, m.put (update_rows p f (m.rows db)) db)

  -- `delete({ where })`
  abbrev pub delete_one : Model Row → (Row → Bool) → M Row
  delete_one m p db = elim (find_first p (m.rows db)) [
    | none ↦ err record_not_found
    | some r ↦ ok (r, m.put (delete_rows p (m.rows db)) db)
  ]

  -- `deleteMany({ where })`
  abbrev pub delete_many : Model Row → (Row → Bool) → M (Unit {0})
  delete_many m p db = ok (tt, m.put (delete_rows p (m.rows db)) db)

  -- `connect: { id }` to a row that is not there throws.
  abbrev pub connect : Model Row → (Row → Bool) → M (Unit {0})
  connect m p db = elim (find_first p (m.rows db)) [
    | none ↦ err record_not_found
    | some _ ↦ ok (tt, db)
  ]
