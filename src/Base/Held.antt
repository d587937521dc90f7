-- ===== src/Base/Held.antt =====
-- Rows that carry a key each (a permission of a user): which keys of a list are held, and what the
-- comparison of the number of rows found with the length of the list tells of it.
use Prim.Native.Nat.{ℕ, ◌+◌, ◌≤◌, ◌<◌}
use mathlib.Core.Path.{◌≡◌, refl}
use mathlib.Core.Logic.{◌↔◌, inl, inr}
use mathlib.Core.Bool.{Bool, true, false, not, ◌&&◌, ◌||◌}
use mathlib.Core.List.{List, [], ◌∷◌}
use native.Mathlib.Omega.{arith}
use cost_x.Base.Tests.{◌==◌, Bool-cases}
use cost_x.Base.Count.{count, length, count_mono, count_never, count_ext, count_split}

-- `keys.includes(key)`, where keys are told apart by their place in an enum
abbrev pub includes_by : {Key : Type 0} → (Key → ℕ) → List Key → Key → Bool
includes_by index [] k = false
includes_by index (j ∷ js) k = index j == index k || includes_by index js k

-- No key stands in the list twice.
abbrev pub IsDistinctBy : {Key : Type 0} → (Key → ℕ) → List Key → Type 0
IsDistinctBy index [] = Unit {0}
IsDistinctBy index (k ∷ ks) = (includes_by index ks k ≡ false) × IsDistinctBy index ks

-- Whether a list includes a key depends only on its place in the enum.
pub includes_index :
    {Key : Type 0} (index : Key → ℕ) (ks : List Key) (a b : Key)
    → index a ≡ index b
    → includes_by index ks a ≡ includes_by index ks b
includes_index index [] a b h = refl
includes_index index (k ∷ ks) a b h = ground (arith, includes_index index ks a b h)

-- `is_mine` finds the rows of one holder.
module _ {Row Key : Type 0} (index : Key → ℕ) (key : Row → Key) (is_mine : Row → Bool)
    (rows : List Row) where
  -- The rows of one key.
  abbrev pub is_held : Key → Row → Bool
  is_held k r = index k == index (key r) && is_mine r

  abbrev pub is_listed : List Key → Row → Bool
  is_listed ks r = includes_by index ks (key r) && is_mine r

  -- Every key of the list is held.
  abbrev pub HoldsAllBy : List Key → Type 0
  HoldsAllBy [] = Unit {0}
  HoldsAllBy (k ∷ ks) = (0 < count (is_held k) rows) × HoldsAllBy ks

  listed_nil : count (is_listed []) rows ≡ 0
  listed_nil = count_never (is_listed []) rows (λ r. ground arith)

  -- Rows of the head of the list, and rows of its tail that are not rows of the head.
  listed_cons :
      (k : Key) (ks : List Key)
      → count (is_listed (k ∷ ks)) rows
        ≡ count (is_held k) rows + count (λ r. is_listed ks r && not (is_held k r)) rows
  listed_cons k ks = omega (
    arith,
    count_split (is_listed (k ∷ ks)) (is_held k) rows,
    count_ext (λ r. is_listed (k ∷ ks) r && is_held k r) (is_held k) rows (λ r. ground arith),
    count_ext (λ r. is_listed (k ∷ ks) r && not (is_held k r))
        (λ r. is_listed ks r && not (is_held k r)) rows (λ r. ground arith),
  )

  listed_rest :
      (k : Key) (ks : List Key)
      → count (λ r. is_listed ks r && not (is_held k r)) rows ≤ count (is_listed ks) rows
  listed_rest k ks =
      count_mono (λ r. is_listed ks r && not (is_held k r)) (is_listed ks) rows
        (λ r h. ground arith)

  -- A key that the list has already adds no row.
  listed_again :
      (k : Key) (ks : List Key)
      → includes_by index ks k ≡ true
      → count (is_listed (k ∷ ks)) rows ≡ count (is_listed ks) rows
  listed_again k ks h =
      count_ext (is_listed (k ∷ ks)) (is_listed ks) rows
        (λ r. ground (arith, includes_index index ks k (key r)))

  listed_new :
      (k : Key) (ks : List Key)
      → includes_by index ks k ≡ false
      → count (λ r. is_listed ks r && not (is_held k r)) rows ≡ count (is_listed ks) rows
  listed_new k ks h =
      count_ext (λ r. is_listed ks r && not (is_held k r)) (is_listed ks) rows
        (λ r. ground (arith, includes_index index ks k (key r)))

  -- Each key is held by one row at most.
  module _ (unique : (k : Key) → count (is_held k) rows ≤ 1) where
    pub listed-le-length : (ks : List Key) → count (is_listed ks) rows ≤ length ks
    listed-le-length [] = omega (arith, listed_nil)
    listed-le-length (k ∷ ks) =
        omega (arith, listed_cons k ks, listed_rest k ks, unique k, listed-le-length ks)

    all_listed-HoldsAll : (ks : List Key) → count (is_listed ks) rows ≡ length ks → HoldsAllBy ks
    all_listed-HoldsAll [] h = tt
    all_listed-HoldsAll (k ∷ ks) h = (
      omega (arith, listed_cons k ks, listed_rest k ks, unique k, listed-le-length ks),
      all_listed-HoldsAll ks
          (omega (arith, listed_cons k ks, listed_rest k ks, unique k, listed-le-length ks)),
    )

    all_listed-IsDistinct :
        (ks : List Key) → count (is_listed ks) rows ≡ length ks → IsDistinctBy index ks
    all_listed-IsDistinct [] h = tt
    all_listed-IsDistinct (k ∷ ks) h = elim (Bool-cases (includes_by index ks k)) [
      | inl again ↦ absurd (omega (arith, listed_again k ks again, listed-le-length ks))
      | inr new ↦ (
        new,
        all_listed-IsDistinct ks
            (omega (arith, listed_cons k ks, listed_new k ks new, unique k, listed-le-length ks)),
      )
    ]

    all_listed_of_HoldsAll :
        (ks : List Key)
        → HoldsAllBy ks
        → IsDistinctBy index ks
        → count (is_listed ks) rows ≡ length ks
    all_listed_of_HoldsAll [] h d = omega (arith, listed_nil)
    all_listed_of_HoldsAll (k ∷ ks) (held, rest) (new, distinct) = omega (
      arith,
      listed_cons k ks,
      listed_new k ks new,
      unique k,
      all_listed_of_HoldsAll ks rest distinct,
    )

    -- As many rows as keys asked for: each of them is held, and none was asked for twice.
    pub all_listed_iff :
        (ks : List Key)
        → (count (is_listed ks) rows ≡ length ks) ↔ (HoldsAllBy ks × IsDistinctBy index ks)
    all_listed_iff ks = (
      λ h. (all_listed-HoldsAll ks h, all_listed-IsDistinct ks h),
      λ h. all_listed_of_HoldsAll ks h.0 h.1,
    )
