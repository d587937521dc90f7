-- ===== src/Ledger/Places.antt =====
-- A table whose rows stand in a workspace each, seen as a function from ids to workspaces.
use cost_x.Base.{
  ℕ, ◌≡◌, ◌<◌, refl, ap, ◌∙◌, inl, inr, Bool, true, false, not, ◌&&◌, Option, none, some, List,
  arith, count, count_mono, bit, ◌==◌, if◌then◌else◌, is_none, Bool-cases, Option-cases, count_ext,
}
use cost_x.Prisma.{Prisma}

-- The workspace of an id is this one.
abbrev pub is_at : Option ℕ → ℕ → Bool
is_at none b = false
is_at (some a) b = a == b

abbrev pub put_at : (ℕ → Option ℕ) → ℕ → ℕ → ℕ → Option ℕ
put_at place k x j = if j == k then some x else place j

abbrev pub taken_from : (ℕ → Option ℕ) → ℕ → ℕ → Option ℕ
taken_from place k j = if j == k then none else place j

module _ {Row : Type 0} (id ws : Row → ℕ) where
  -- Every row stands where the function says, and an id has a place only if a row has the id.
  pub record IsPlacedBy (place : ℕ → Option ℕ) (rows : List Row) : Type 0 where
    pub agree : count (λ r. not (is_at (place (id r)) (ws r))) rows ≡ 0
    pub known : (k : ℕ) → is_none (place k) ≡ false → 0 < count (λ r. id r == k) rows

  -- An id that no row has is free.
  pub no_row_no_place :
      (place : ℕ → Option ℕ) (rows : List Row) (k : ℕ)
      → IsPlacedBy place rows
      → count (λ r. id r == k) rows ≡ 0
      → place k ≡ none
  no_row_no_place place rows k h free = elim (Option-cases (place k)) [
    | inl e ↦ e
    | inr (x, e) ↦ absurd (omega (arith, h.known k (rw (e) refl), free))
  ]

  -- Where a row stands that is in the table.
  pub stored_place :
      (place : ℕ → Option ℕ) (rows : List Row) (k x : ℕ)
      → IsPlacedBy place rows
      → 0 < count (λ r. id r == k && ws r == x) rows
      → place k ≡ some x
  stored_place place rows k x h there = elim (Bool-cases (is_at (place k) x)) [
    | inl yes_at ↦ at_lem (place k) yes_at
    | inr apart ↦ absurd (
        omega (
          arith,
          h.agree,
          there,
          count_mono (λ r. id r == k && ws r == x) (λ r. not (is_at (place (id r)) (ws r))) rows
              (λ r both. bad apart r both),
        ))
  ]
    where
      at_lem : (o : Option ℕ) → is_at o x ≡ true → o ≡ some x
      at_lem none e = absurd (ground arith)
      at_lem (some a) e = ap some (ground arith)

      bad :
          is_at (place k) x ≡ false
          → (r : Row) → (id r == k && ws r == x) ≡ true
          → not (is_at (place (id r)) (ws r)) ≡ true
      bad apart r both =
          let e : id r ≡ k = ground arith in
          let e' : ws r ≡ x = ground arith in rw (e, e', apart) refl

  module _ ⦃prisma : Prisma⦄ where
    pub insert-IsPlacedBy :
        (place : ℕ → Option ℕ) (rows : List Row) (r : Row)
        → IsPlacedBy place rows
        → place (id r) ≡ none
        → IsPlacedBy (put_at place (id r) (ws r)) (prisma.insert_row r rows)
    insert-IsPlacedBy place rows r h free =
        let k = id r in
        let bad = λ (s : Row). not (is_at (put_at place k (ws r) (id s)) (ws s)) in
        record {
          agree = omega (
            arith,
            h.agree,
            prisma.count-insert_row bad r rows,
            new,
            count_mono bad (λ s. not (is_at (place (id s)) (ws s))) rows (λ s e. old s e),
          );
          known = λ j e. there j e;
        }
      where
        new : bit (not (is_at (put_at place (id r) (ws r) (id r)) (ws r))) ≡ 0
        new = ground arith

        old :
            (s : Row)
            → not (is_at (put_at place (id r) (ws r) (id s)) (ws s)) ≡ true
            → not (is_at (place (id s)) (ws s)) ≡ true
        old s e = elim (Bool-cases (id s == id r)) [
          | inl same ↦ let q : id s ≡ id r = ground arith in rw (q, free) refl
          | inr other ↦ ground (arith, other, e)
        ]

        there :
            (j : ℕ)
            → is_none (put_at place (id r) (ws r) j) ≡ false
            → 0 < count (λ s. id s == j) (prisma.insert_row r rows)
        there j e = elim (Bool-cases (j == id r)) [
          | inl same ↦ ground (arith, same, prisma.count-insert_row (λ s. id s == j) r rows)
          | inr other ↦
              let kept : is_none (place j) ≡ false = ground (arith, other, e) in
              omega (arith, h.known j kept, prisma.count-insert_row (λ s. id s == j) r rows)
        ]

    -- A change that keeps the id and the workspace.
    pub update-IsPlacedBy :
        (place : ℕ → Option ℕ) (rows : List Row) (w : Row → Bool) (f : Row → Row)
        → ((r : Row) → id (f r) ≡ id r)
        → ((r : Row) → ws (f r) ≡ ws r)
        → IsPlacedBy place rows
        → IsPlacedBy place (prisma.update_rows w f rows)
    update-IsPlacedBy place rows w f same_id same_ws h =
        let bad = λ (s : Row). not (is_at (place (id s)) (ws s)) in
        record {
          agree =
              prisma.count-update_rows bad w f rows
              ∙ count_ext (λ s. bad (if w s then f s else s)) bad rows (λ s. bad_same s)
              ∙ h.agree;
          known = λ j e. omega (
            arith,
            h.known j e,
            prisma.count-update_rows (λ s. id s == j) w f rows,
            count_ext (λ s. id (if w s then f s else s) == j) (λ s. id s == j) rows
                (λ s. id_same j s),
          );
        }
      where
        bad_same :
            (s : Row)
            → not (is_at (place (id (if w s then f s else s))) (ws (if w s then f s else s)))
              ≡ not (is_at (place (id s)) (ws s))
        bad_same s = elim (Bool-cases (w s)) [
          | inl here ↦ rw (here, same_id s, same_ws s) refl
          | inr away ↦ rw (away) refl
        ]

        id_same : (j : ℕ) (s : Row) → (id (if w s then f s else s) == j) ≡ (id s == j)
        id_same j s = elim (Bool-cases (w s)) [
          | inl here ↦ rw (here, same_id s) refl
          | inr away ↦ rw (away) refl
        ]

    pub delete-IsPlacedBy :
        (place : ℕ → Option ℕ) (rows : List Row) (k : ℕ)
        → IsPlacedBy place rows
        → IsPlacedBy (taken_from place k) (prisma.delete_rows (λ r. id r == k) rows)
    delete-IsPlacedBy place rows k h =
        let bad = λ (s : Row). not (is_at (taken_from place k (id s)) (ws s)) in
        let gone = λ (s : Row). id s == k in
        record {
          agree = omega (
            arith,
            h.agree,
            prisma.count-delete_rows bad gone rows,
            count_mono (λ s. bad s && not (gone s)) (λ s. not (is_at (place (id s)) (ws s))) rows
                (λ s e. ground (arith, e)),
          );
          known = λ j e. there j e;
        }
      where
        there :
            (j : ℕ)
            → is_none (taken_from place k j) ≡ false
            → 0 < count (λ s. id s == j) (prisma.delete_rows (λ r. id r == k) rows)
        there j e = elim (Bool-cases (j == k)) [
          | inl same ↦ absurd (ground (arith, same, e))
          | inr other ↦
              let kept : is_none (place j) ≡ false = ground (arith, other, e) in
              omega (
                arith,
                h.known j kept,
                prisma.count-delete_rows (λ s. id s == j) (λ r. id r == k) rows,
                count_ext (λ s. id s == j && not (id s == k)) (λ s. id s == j) rows
                    (λ s. ground (arith, other)),
              )
        ]
