-- ===== src/Loader/Answers.antt =====
-- What a batch answers: for each key the rows of the table with that key.
use cost_x.Base.{
  ℕ, ◌<◌, refl, ◌≡◌, sym, ap, subst, ◌∙◌, inl, inr, Bool, true, false, ◌&&◌, Option, none, some,
  List, [], ◌∷◌, map, arith, count, count_ext, count_mono, ◌≤◌, ◌==◌, Bool-cases,
}
use cost_x.Prisma.{Prisma}
use cost_x.Schema.{Db}
use cost_x.Transaction.{ok}
use cost_x.Delegate.{Model}
use cost_x.Group.{get, group_by, map_by, sort_by}
use cost_x.Group.Laws.{rows_of, some_rows, first_row, get-group_by, get-map_by, sort_by_lem}
use cost_x.Loader.Loaders.{
  has_key, unique, unique_from, or_empty, load_groups, load_rows, load_sorted,
}

-- The answers are those to the keys, one by one.
abbrev pub Each : {A : Type 0} → (ℕ → A → Type 0) → List ℕ → List A → Type 0
Each P [] [] = Unit {0}
Each P [] (a ∷ rest) = ⊥
Each P (id ∷ ids) [] = ⊥
Each P (id ∷ ids) (a ∷ rest) = P id a × Each P ids rest

module _ {Row : Type 0} (key : Row → ℕ) where
  -- The group of a key has the rows that pass the test and have the key, each as often as the table.
  abbrev pub IsRowsOf : (Row → Bool) → List Row → ℕ → List Row → Type 0
  IsRowsOf test table id rows =
      (q : Row → Bool) → count q rows ≡ count (λ r. q r && (test r && key r == id)) table

  -- The answer is a row of the table, so that the table has a row with whatever is so of it, and has
  -- the key; or no row of the table has the key.
  abbrev pub IsRowOf : List Row → ℕ → Option Row → Type 0
  IsRowOf table id none = count (λ r. key r == id) table ≡ 0
  IsRowOf table id (some row) =
      (key row ≡ id) × ((q : Row → Bool) → q row ≡ true → 0 < count q table)

  pub count-rows_of :
      (q : Row → Bool) (k : ℕ) (rows : List Row)
      → count q (rows_of key k rows) ≡ count (λ r. key r == k && q r) rows
  unfolding count
  count-rows_of q k [] = refl
  count-rows_of q k (r ∷ rows) = ground (arith, count-rows_of q k rows)

has_key_head : (id : ℕ) (ids : List ℕ) → has_key (id ∷ ids) id ≡ true
has_key_head id ids = ground arith

-- The keys that are asked for once are those that are asked for.
unique_from-has_key :
    (seen ids : List ℕ) (k : ℕ)
    → has_key seen k ≡ false
    → has_key (unique_from seen ids) k ≡ has_key ids k
unique_from-has_key seen [] k new = refl
unique_from-has_key seen (id ∷ ids) k new = elim (Bool-cases (id == k)) [
  | inl same ↦
      let e : id ≡ k = ground arith in
      let first : has_key seen id ≡ false = rw (e) new in ground (arith, same, first)
  | inr other ↦ elim (Bool-cases (has_key seen id)) [
    | inl again ↦
        ground
          (arith, other, again, unique_from-has_key (id ∷ seen) ids k (ground (arith, other, new)))
    | inr once ↦
        ground
          (arith, other, once, unique_from-has_key (id ∷ seen) ids k (ground (arith, other, new)))
  ]
]

pub unique-has_key : (ids : List ℕ) (k : ℕ) → has_key (unique ids) k ≡ has_key ids k
unique-has_key ids k = unique_from-has_key [] ids k refl

module _ {Row : Type 0} ⦃prisma : Prisma⦄ (m : Model Row) (key : Row → ℕ) (db : Db) where
  or_empty-some_rows : (rows : List Row) → or_empty (some_rows key rows) ≡ rows
  or_empty-some_rows [] = refl
  or_empty-some_rows (r ∷ rows) = refl

  -- The rows that the query finds, of one key.
  found-IsRowsOf :
      (test : Row → Bool) (ids : List ℕ) (id : ℕ)
      → has_key ids id ≡ true
      → IsRowsOf key test (m.rows db) id (
          or_empty (
            get id
              (group_by key (prisma.find_many (λ r. has_key ids (key r) && test r) (m.rows db)))))
  found-IsRowsOf test ids id asked q =
      let w = λ (r : Row). has_key ids (key r) && test r in
      let found = prisma.find_many w (m.rows db) in
      ap (count q)
        (ap or_empty (get-group_by key id found) ∙ or_empty-some_rows (rows_of key id found))
      ∙ count-rows_of key q id found
      ∙ prisma.count-find_many (λ r. key r == id && q r) w (m.rows db)
      ∙ count_ext (λ r. w r && (key r == id && q r)) (λ r. q r && (test r && key r == id))
          (m.rows db) (λ r. mine r)
    where
      mine :
          (r : Row)
          → ((has_key ids (key r) && test r) && (key r == id && q r))
            ≡ (q r && (test r && key r == id))
      mine r = elim (Bool-cases (key r == id)) [
        | inl same ↦
            let e : key r ≡ id = ground arith in
            let there : has_key ids (key r) ≡ true = rw (e) asked in ground (arith, same, there)
        | inr other ↦ ground (arith, other)
      ]

  groups-Each :
      (test : Row → Bool) (ids sub : List ℕ)
      → ((id : ℕ) → has_key sub id ≡ true → has_key ids id ≡ true)
      → Each (IsRowsOf key test (m.rows db)) sub (
          map
            (λ id. or_empty (
              get id
                (group_by key (prisma.find_many (λ r. has_key ids (key r) && test r) (m.rows db)))))
            sub)
  groups-Each test ids [] inside = tt
  groups-Each test ids (id ∷ sub) inside = (
    found-IsRowsOf test ids id (inside id (has_key_head id sub)),
    groups-Each test ids sub (λ k asked. inside k (ground (arith, asked))),
  )

  pub load_groups-Each :
      (test : Row → Bool) (ids : List ℕ)
      → (groups : List (List Row)) × (load_groups m key test ids db ≡ ok (groups, db))
        × Each (IsRowsOf key test (m.rows db)) ids groups
  load_groups-Each test ids = (_, refl, groups-Each test ids ids (λ id asked. asked))

  IsRowOf-count :
      (id : ℕ) (rows rows' : List Row) (found : Option Row)
      → count (λ r. key r == id) rows ≡ count (λ r. key r == id) rows'
      → ((q : Row → Bool) → count q rows ≤ count q rows')
      → IsRowOf key rows id found
      → IsRowOf key rows' id found
  IsRowOf-count id rows rows' none same more h = omega (arith, same, h)
  IsRowOf-count id rows rows' (some r) same more (e, there) =
      (e, λ q passes. omega (arith, more q, there q passes))

  first_row-IsRowOf :
      (id : ℕ) (rows : List Row) → IsRowOf key rows id (first_row key (rows_of key id rows))
  unfolding count
  first_row-IsRowOf id [] = refl
  first_row-IsRowOf id (r ∷ rows) = elim (Bool-cases (key r == id)) [
    | inl same ↦ rw (same) (ground arith, λ q passes. ground (arith, passes))
    | inr other ↦ rw (other) (
        IsRowOf-count id rows (r ∷ rows) (first_row key (rows_of key id rows))
          (ground (arith, other)) (λ q. ground arith) (first_row-IsRowOf id rows))
  ]

  -- The rows that a query for the keys finds have as many of a key that is asked for as the table.
  found-count :
      (ids : List ℕ) (id : ℕ)
      → has_key ids id ≡ true
      → count (λ r. key r == id) (prisma.find_many (λ r. has_key ids (key r)) (m.rows db))
        ≡ count (λ r. key r == id) (m.rows db)
  found-count ids id asked =
      prisma.count-find_many (λ r. key r == id) (λ r. has_key ids (key r)) (m.rows db)
      ∙ count_ext (λ r. has_key ids (key r) && key r == id) (λ r. key r == id) (m.rows db)
          (λ r. mine r)
    where
      mine : (r : Row) → (has_key ids (key r) && key r == id) ≡ (key r == id)
      mine r = elim (Bool-cases (key r == id)) [
        | inl same ↦
            let e : key r ≡ id = ground arith in
            let there : has_key ids (key r) ≡ true = rw (e) asked in ground (arith, same, there)
        | inr other ↦ ground (arith, other)
      ]

  found-less :
      (ids : List ℕ) (q : Row → Bool)
      → count q (prisma.find_many (λ r. has_key ids (key r)) (m.rows db)) ≤ count q (m.rows db)
  found-less ids q = omega (
    arith,
    prisma.count-find_many q (λ r. has_key ids (key r)) (m.rows db),
    count_mono (λ r. has_key ids (key r) && q r) q (m.rows db) (λ r h. ground (arith, h)),
  )

  -- What is found first for a key that is asked for.
  found-IsRowOf :
      (ids : List ℕ) (id : ℕ)
      → has_key ids id ≡ true
      → IsRowOf key
          (m.rows db)
          id
          (first_row key (rows_of key id (prisma.find_many (λ r. has_key ids (key r)) (m.rows db))))
  found-IsRowOf ids id asked =
      let found = prisma.find_many (λ (r : Row). has_key ids (key r)) (m.rows db) in
      IsRowOf-count id found (m.rows db) (first_row key (rows_of key id found))
        (found-count ids id asked) (λ q. found-less ids q) (first_row-IsRowOf id found)

  rows-Each :
      (ids sub : List ℕ)
      → ((id : ℕ) → has_key sub id ≡ true → has_key ids id ≡ true)
      → Each (IsRowOf key (m.rows db)) sub (
          map
            (λ id.
              get id
                (map_by key (prisma.find_many (λ r. has_key (unique ids) (key r)) (m.rows db))))
            sub)
  rows-Each ids [] inside = tt
  rows-Each ids (id ∷ sub) inside =
      let found = prisma.find_many (λ (r : Row). has_key (unique ids) (key r)) (m.rows db) in
      (
        subst (IsRowOf key (m.rows db) id) (sym (get-map_by key id found).0) (
            found-IsRowOf (unique ids) id
              (unique-has_key ids id ∙ inside id (has_key_head id sub))),
        rows-Each ids sub (λ k asked. inside k (ground (arith, asked))),
      )

  pub load_rows-Each :
      (ids : List ℕ)
      → (found : List (Option Row)) × (load_rows m key ids db ≡ ok (found, db))
        × Each (IsRowOf key (m.rows db)) ids found
  load_rows-Each ids = (_, refl, rows-Each ids ids (λ id asked. asked))

  sorted-Each :
      (ids sub : List ℕ)
      → ((id : ℕ) → has_key sub id ≡ true → has_key ids id ≡ true)
      → Each (IsRowOf key (m.rows db)) sub (
          map
            (λ id.
              first_row key
                (rows_of key id (prisma.find_many (λ r. has_key ids (key r)) (m.rows db))))
            sub)
  sorted-Each ids [] inside = tt
  sorted-Each ids (id ∷ sub) inside = (
    found-IsRowOf ids id (inside id (has_key_head id sub)),
    sorted-Each ids sub (λ k asked. inside k (ground (arith, asked))),
  )

  pub load_sorted-Each :
      (ids : List ℕ)
      → (found : List (Option Row)) × (load_sorted m key ids db ≡ ok (found, db))
        × Each (IsRowOf key (m.rows db)) ids found
  load_sorted-Each ids =
      let found = prisma.find_many (λ (r : Row). has_key ids (key r)) (m.rows db) in
      (
        sort_by key found ids,
        refl,
        subst (Each (IsRowOf key (m.rows db)) ids) (sym (sort_by_lem key found ids))
            (sorted-Each ids ids (λ id asked. asked)),
      )
