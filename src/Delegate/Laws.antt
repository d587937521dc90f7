-- ===== src/Delegate/Laws.antt =====
-- What a call of a delegate has done when it comes through, for any table.
use cost_x.Base.{ℕ, ◌≡◌, ◌<◌, Bool, false, none, some, List, inl, inr, arith, count, Option-cases}
use cost_x.Prisma.{Prisma}
use cost_x.Schema.{Db}
use cost_x.Transaction.{ok}
use cost_x.Delegate.Models.{Model}
use cost_x.Delegate.{create, connect, update_one}

module _ {Row : Type 0} ⦃prisma : Prisma⦄ where
  -- The row that `create` writes.
  abbrev pub next_row : Model Row → (ℕ → Row) → Db → Row
  next_row m make db = make (prisma.next_id m.id (m.rows db))

  pub create_lem :
      (m : Model Row) (make : ℕ → Row) (db : Db) {r : Row} {db' : Db}
      → create m make db ≡ ok (r, db')
      → (r ≡ next_row m make db)
        × (count (m.clashes (next_row m make db)) (m.rows db) ≡ 0)
        × (db' ≡ m.put (prisma.insert_row (next_row m make db) (m.rows db)) db)
  unfolding create
  create_lem m make db h =
      let row = next_row m make db in
      elim (Option-cases (prisma.find_first (m.clashes row) (m.rows db))) [
        | inl free ↦
            (ground arith, prisma.find_first_none (m.clashes row) (m.rows db) free, ground arith)
        | inr (other, found) ↦ absurd (ground arith)
      ]

  pub connect_lem :
      (m : Model Row) (p : Row → Bool) (db : Db) {db' : Db}
      → connect m p db ≡ ok (tt, db')
      → db' ≡ db
  connect_lem m p db h = ground arith

  pub update_one_lem :
      (m : Model Row) (p : Row → Bool) (f : Row → Row) (db : Db) {r : Row} {db' : Db}
      → update_one m p f db ≡ ok (r, db')
      → ((old : Row) × (prisma.find_first p (m.rows db) ≡ some old) × (r ≡ f old))
        × (db' ≡ m.put (prisma.update_rows p f (m.rows db)) db)
  update_one_lem m p f db h = elim (Option-cases (prisma.find_first p (m.rows db))) [
    | inl missing ↦ absurd (ground arith)
    | inr (old, found) ↦ ((old, found, ground arith), ground arith)
  ]

  -- A row that is there is found.
  pub find_counted :
      (p : Row → Bool) (rows : List Row)
      → 0 < count p rows
      → (r : Row) × (prisma.find_first p rows ≡ some r)
  find_counted p rows there = elim (Option-cases (prisma.find_first p rows)) [
    | inl missing ↦ absurd (omega (arith, there, prisma.find_first_none p rows missing))
    | inr (r, found) ↦ (r, found)
  ]

  pub find_never :
      (p : Row → Bool) (rows : List Row)
      → ((r : Row) → p r ≡ false)
      → prisma.find_first p rows ≡ none
  find_never p rows never = elim (Option-cases (prisma.find_first p rows)) [
    | inl missing ↦ missing
    | inr (r, found) ↦ absurd (cc (prisma.find_first_some p rows r found, never r))
  ]
