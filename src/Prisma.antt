-- ===== src/Prisma.antt =====
-- The Prisma client (`@prisma/client` over PostgreSQL), which every service takes as `prisma`.
-- It is not code of the repository, so it is an instance argument: the calls that the services
-- make, as functions on the rows of a table, and what Prisma documents of each. Where the client
-- promises no order (`findFirst`, `findMany` without `orderBy`), neither do the laws: they speak of
-- a table only by the number of its rows that pass a test.
pub mod InMemory
pub mod Client
use cost_x.Base.{
  ℕ, ◌+◌, ◌<◌, ◌≡◌, Bool, true, not, ◌&&◌, Option, none, some, List, count, bit, ◌==◌,
  if◌then◌else◌,
}

pub record Prisma : Type 1 where
  -- `findFirst({ where })` and `findUnique({ where })`
  pub find_first : {Row : Type 0} → (Row → Bool) → List Row → Option Row
  -- `findMany({ where })`
  pub find_many : {Row : Type 0} → (Row → Bool) → List Row → List Row
  -- `count({ where })`
  pub count_rows : {Row : Type 0} → (Row → Bool) → List Row → ℕ
  -- `create({ data })` of a row that no constraint forbids
  pub insert_row : {Row : Type 0} → Row → List Row → List Row
  -- `update({ where, data })` and `updateMany({ where, data })`
  pub update_rows : {Row : Type 0} → (Row → Bool) → (Row → Row) → List Row → List Row
  -- `delete({ where })` and `deleteMany({ where })`
  pub delete_rows : {Row : Type 0} → (Row → Bool) → List Row → List Row
  -- `@default(autoincrement())`: the id of the next row
  pub next_id : {Row : Type 0} → (Row → ℕ) → List Row → ℕ
  pub find_first_some :
      {Row : Type 0} (p : Row → Bool) (rows : List Row) (r : Row)
      → find_first p rows ≡ some r
      → p r ≡ true
  pub find_first_stored :
      {Row : Type 0} (p q : Row → Bool) (rows : List Row) (r : Row)
      → find_first p rows ≡ some r
      → q r ≡ true
      → 0 < count q rows
  pub find_first_none :
      {Row : Type 0} (p : Row → Bool) (rows : List Row)
      → find_first p rows ≡ none
      → count p rows ≡ 0
  pub count-find_many :
      {Row : Type 0} (q p : Row → Bool) (rows : List Row)
      → count q (find_many p rows) ≡ count (λ r. p r && q r) rows
  pub count_rows_lem :
      {Row : Type 0} (p : Row → Bool) (rows : List Row) → count_rows p rows ≡ count p rows
  pub count-insert_row :
      {Row : Type 0} (q : Row → Bool) (r : Row) (rows : List Row)
      → count q (insert_row r rows) ≡ bit (q r) + count q rows
  pub count-update_rows :
      {Row : Type 0} (q w : Row → Bool) (f : Row → Row) (rows : List Row)
      → count q (update_rows w f rows) ≡ count (λ r. q (if w r then f r else r)) rows
  pub count-delete_rows :
      {Row : Type 0} (q w : Row → Bool) (rows : List Row)
      → count q (delete_rows w rows) ≡ count (λ r. q r && not (w r)) rows
  pub next_id_fresh :
      {Row : Type 0} (id : Row → ℕ) (rows : List Row)
      → count (λ r. id r == next_id id rows) rows ≡ 0
