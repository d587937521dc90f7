-- ===== src/Ledger/References.antt =====
-- A table whose rows refer to two things that stand in a workspace each, and the ids of a table.
use cost_x.Base.{
  ℕ, ◌≡◌, ◌≤◌, ◌+◌, refl, inl, inr, Bool, true, false, not, ◌&&◌, ◌||◌, Option, none, some, List,
  arith, count, count_mono, ◌==◌, if◌then◌else◌, Bool-cases, count_ext, count_split,
}
use cost_x.Prisma.{Prisma}
use cost_x.Ledger.Places.{put_at, taken_from}

-- Both have a place, and it is the same.
abbrev pub is_same : Option ℕ → Option ℕ → Bool
is_same (some a) (some b) = a == b
is_same _ _ = false

pub is_same-none : (o : Option ℕ) → is_same o none ≡ false
is_same-none none = refl
is_same-none (some a) = refl

module _ {Row : Type 0} where
  pub count_either :
      (p q r : Row → Bool) (rows : List Row)
      → ((a : Row) → p a ≡ true → (q a || r a) ≡ true)
      → count p rows ≤ count q rows + count r rows
  count_either p q r rows h = omega (
    arith,
    count_split p q rows,
    count_mono (λ a. p a && q a) q rows (λ a e. ground (arith, e)),
    count_mono (λ a. p a && not (q a)) r rows (λ a e. ground (arith, e, h a)),
  )

  -- Each id is of one row at most.
  abbrev pub IsUniqueBy : (Row → ℕ) → List Row → Type 0
  IsUniqueBy id rows = (k : ℕ) → count (λ r. id r == k) rows ≤ 1

  module _ (id : Row → ℕ) ⦃prisma : Prisma⦄ where
    pub insert-IsUniqueBy :
        (rows : List Row) (r : Row)
        → IsUniqueBy id rows
        → count (λ s. id s == id r) rows ≡ 0
        → IsUniqueBy id (prisma.insert_row r rows)
    insert-IsUniqueBy rows r h free k = elim (Bool-cases (id r == k)) [
      | inl same ↦
          let e : id r ≡ k = ground arith in
          let none_yet : count (λ s. id s == k) rows ≡ 0 = rw (e) at free in
          ground (arith, same, none_yet, prisma.count-insert_row (λ s. id s == k) r rows)
      | inr other ↦ ground (arith, other, h k, prisma.count-insert_row (λ s. id s == k) r rows)
    ]

    pub update-IsUniqueBy :
        (rows : List Row) (w : Row → Bool) (f : Row → Row)
        → ((r : Row) → id (f r) ≡ id r)
        → IsUniqueBy id rows
        → IsUniqueBy id (prisma.update_rows w f rows)
    update-IsUniqueBy rows w f same h k = omega (
      arith,
      h k,
      prisma.count-update_rows (λ s. id s == k) w f rows,
      count_ext (λ s. id (if w s then f s else s) == k) (λ s. id s == k) rows (λ s. id_same s),
    )
      where
        id_same : (s : Row) → (id (if w s then f s else s) == k) ≡ (id s == k)
        id_same s = elim (Bool-cases (w s)) [
          | inl here ↦ rw (here, same s) refl
          | inr away ↦ rw (away) refl
        ]

    pub delete-IsUniqueBy :
        (rows : List Row) (w : Row → Bool)
        → IsUniqueBy id rows
        → IsUniqueBy id (prisma.delete_rows w rows)
    delete-IsUniqueBy rows w h k = omega (
      arith,
      h k,
      prisma.count-delete_rows (λ s. id s == k) w rows,
      count_mono (λ s. id s == k && not (w s)) (λ s. id s == k) rows (λ s e. ground (arith, e)),
    )

  module _ (left right : Row → ℕ) where
    -- A row whose two ends are not in one workspace.
    abbrev pub is_torn : (ℕ → Option ℕ) → (ℕ → Option ℕ) → Row → Bool
    is_torn place place' r = not (is_same (place (left r)) (place' (right r)))

    -- No row is torn.
    abbrev pub IsWhole : (ℕ → Option ℕ) → (ℕ → Option ℕ) → List Row → Type 0
    IsWhole place place' rows = count (is_torn place place') rows ≡ 0

    -- A thing that is new has no rows yet.
    pub new_left-IsWhole :
        (a b : ℕ → Option ℕ) (rows : List Row) (k x : ℕ)
        → a k ≡ none
        → IsWhole a b rows
        → IsWhole (put_at a k x) b rows
    new_left-IsWhole a b rows k x free h =
        omega (arith, h, count_mono (is_torn (put_at a k x) b) (is_torn a b) rows (λ r e. old r e))
      where
        old : (r : Row) → is_torn (put_at a k x) b r ≡ true → is_torn a b r ≡ true
        old r e = elim (Bool-cases (left r == k)) [
          | inl same ↦ let q : left r ≡ k = ground arith in rw (q, free) refl
          | inr other ↦ ground (arith, other, e)
        ]

    pub new_right-IsWhole :
        (a b : ℕ → Option ℕ) (rows : List Row) (k x : ℕ)
        → b k ≡ none
        → IsWhole a b rows
        → IsWhole a (put_at b k x) rows
    new_right-IsWhole a b rows k x free h =
        omega (arith, h, count_mono (is_torn a (put_at b k x)) (is_torn a b) rows (λ r e. old r e))
      where
        old : (r : Row) → is_torn a (put_at b k x) r ≡ true → is_torn a b r ≡ true
        old r e = elim (Bool-cases (right r == k)) [
          | inl same ↦
              let q : right r ≡ k = ground arith in
              rw (q, free) (rw (is_same-none (a (left r))) refl)
          | inr other ↦ ground (arith, other, e)
        ]

    module _ ⦃prisma : Prisma⦄ where
      -- A thing that goes takes its rows with it.
      pub cut_left-IsWhole :
          (a b : ℕ → Option ℕ) (rows : List Row) (k : ℕ)
          → IsWhole a b rows
          → IsWhole (taken_from a k) b (prisma.delete_rows (λ r. left r == k) rows)
      cut_left-IsWhole a b rows k h = omega (
        arith,
        h,
        prisma.count-delete_rows (is_torn (taken_from a k) b) (λ r. left r == k) rows,
        count_mono (λ r. is_torn (taken_from a k) b r && not (left r == k)) (is_torn a b) rows
            (λ r e. ground (arith, e)),
      )

      pub cut_right-IsWhole :
          (a b : ℕ → Option ℕ) (rows : List Row) (k : ℕ)
          → IsWhole a b rows
          → IsWhole a (taken_from b k) (prisma.delete_rows (λ r. right r == k) rows)
      cut_right-IsWhole a b rows k h = omega (
        arith,
        h,
        prisma.count-delete_rows (is_torn a (taken_from b k)) (λ r. right r == k) rows,
        count_mono (λ r. is_torn a (taken_from b k) r && not (right r == k)) (is_torn a b) rows
            (λ r e. ground (arith, e)),
      )

      pub insert-IsWhole :
          (a b : ℕ → Option ℕ) (rows : List Row) (r : Row)
          → is_torn a b r ≡ false
          → IsWhole a b rows
          → IsWhole a b (prisma.insert_row r rows)
      insert-IsWhole a b rows r good h =
          ground (arith, good, h, prisma.count-insert_row (is_torn a b) r rows)

      pub delete-IsWhole :
          (a b : ℕ → Option ℕ) (rows : List Row) (w : Row → Bool)
          → IsWhole a b rows
          → IsWhole a b (prisma.delete_rows w rows)
      delete-IsWhole a b rows w h = omega (
        arith,
        h,
        prisma.count-delete_rows (is_torn a b) w rows,
        count_mono (λ r. is_torn a b r && not (w r)) (is_torn a b) rows (λ r e. ground (arith, e)),
      )

      -- A change of rows none of which is an exception.
      pub update-IsWhole :
          (a b : ℕ → Option ℕ) (rows : List Row) (w exception : Row → Bool) (f : Row → Row)
          → count exception rows ≡ 0
          → ((r : Row)
              → w r ≡ true
              → exception r ≡ false
              → is_torn a b r ≡ false
              → is_torn a b (f r) ≡ false)
          → IsWhole a b rows
          → IsWhole a b (prisma.update_rows w f rows)
      update-IsWhole a b rows w exception f never keep h = omega (
        arith,
        h,
        never,
        prisma.count-update_rows (is_torn a b) w f rows,
        count_either (λ r. is_torn a b (if w r then f r else r)) (is_torn a b) exception rows
            (λ r e. torn r e),
      )
        where
          torn :
              (r : Row)
              → is_torn a b (if w r then f r else r) ≡ true
              → (is_torn a b r || exception r) ≡ true
          torn r e = elim (Bool-cases (is_torn a b r)) [
            | inl bad ↦ rw (bad) refl
            | inr good ↦ elim (Bool-cases (exception r)) [
              | inl odd ↦ rw (good, odd) refl
              | inr even ↦ elim (Bool-cases (w r)) [
                | inl here ↦
                    let e' : is_torn a b (f r) ≡ true = rw (here) at e in
                    absurd (cc (e', keep r here even good))
                | inr away ↦
                    let e' : is_torn a b r ≡ true = rw (away) at e in absurd (cc (e', good))
              ]
            ]
          ]
