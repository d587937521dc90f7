-- ===== src/Prisma/InMemory.antt =====
-- A client that keeps each table as a list. It meets the laws of `Prisma`, so they can be met.
use cost_x.Base.{
  ℕ, ◌+◌, ◌≤◌, ◌<◌, ◌≡◌, refl, Bool, true, not, ◌&&◌, Option, none, some, List, [], ◌∷◌, ◌++◌,
  arith, count, count-append, bit, ltb, ◌==◌, if◌then◌else◌,
}

module _ {Row : Type 0} where
  abbrev pub first : (Row → Bool) → List Row → Option Row
  first p [] = none
  first p (r ∷ rs) = if p r then some r else first p rs

  abbrev pub filter : (Row → Bool) → List Row → List Row
  filter p [] = []
  filter p (r ∷ rs) = if p r then r ∷ filter p rs else filter p rs

  abbrev pub update : (Row → Bool) → (Row → Row) → List Row → List Row
  update w f [] = []
  update w f (r ∷ rs) = (if w r then f r else r) ∷ update w f rs

  abbrev pub delete : (Row → Bool) → List Row → List Row
  delete w [] = []
  delete w (r ∷ rs) = if w r then delete w rs else r ∷ delete w rs

  -- One more than every id.
  abbrev pub next : (Row → ℕ) → List Row → ℕ
  next id [] = 1
  next id (r ∷ rs) = let n = next id rs in if ltb (id r) n then n else id r + 1

  pub first-some : (p : Row → Bool) (rs : List Row) (r : Row) → first p rs ≡ some r → p r ≡ true
  first-some p [] r h = cc
  first-some p (x ∷ rs) r h = ground (arith, first-some p rs r)

  pub first_stored :
      (p q : Row → Bool) (rs : List Row) (r : Row)
      → first p rs ≡ some r
      → q r ≡ true
      → 0 < count q rs
  unfolding count
  first_stored p q [] r h e = cc
  first_stored p q (x ∷ rs) r h e = ground (arith, first_stored p q rs r)

  pub first-none : (p : Row → Bool) (rs : List Row) → first p rs ≡ none → count p rs ≡ 0
  unfolding count
  first-none p [] h = refl
  first-none p (x ∷ rs) h = ground (arith, first-none p rs)

  pub count-filter :
      (q p : Row → Bool) (rs : List Row) → count q (filter p rs) ≡ count (λ r. p r && q r) rs
  unfolding count
  count-filter q p [] = refl
  count-filter q p (x ∷ rs) = ground (arith, count-filter q p rs)

  pub count-update :
      (q w : Row → Bool) (f : Row → Row) (rs : List Row)
      → count q (update w f rs) ≡ count (λ r. q (if w r then f r else r)) rs
  unfolding count
  count-update q w f [] = refl
  count-update q w f (x ∷ rs) = ground (arith, count-update q w f rs)

  pub count-delete :
      (q w : Row → Bool) (rs : List Row) → count q (delete w rs) ≡ count (λ r. q r && not (w r)) rs
  unfolding count
  count-delete q w [] = refl
  count-delete q w (x ∷ rs) = ground (arith, count-delete q w rs)

  count_above :
      (id : Row → ℕ) (n : ℕ) (rs : List Row) → next id rs ≤ n → count (λ r. id r == n) rs ≡ 0
  unfolding count
  count_above id n [] h = refl
  count_above id n (x ∷ rs) h = ground (arith, count_above id n rs)

  pub next_fresh : (id : Row → ℕ) (rs : List Row) → count (λ r. id r == next id rs) rs ≡ 0
  next_fresh id rs = count_above id (next id rs) rs (omega arith)

  abbrev pub push : Row → List Row → List Row
  push r rs = rs ++ r ∷ []

  pub count-push :
      (q : Row → Bool) (r : Row) (rs : List Row) → count q (push r rs) ≡ bit (q r) + count q rs
  unfolding count
  count-push q r rs = omega (arith, count-append q rs (r ∷ []))
