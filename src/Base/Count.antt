-- ===== src/Base/Count.antt =====
-- How many entries of a list pass a Boolean test: the view of a table that forgets the order of
-- its rows.
use Prim.Native.Nat.{ℕ, suc, ◌+◌, ◌≤◌}
use mathlib.Core.Path.{◌≡◌, refl, ap}
use mathlib.Core.Bool.{Bool, true, false, not, ◌&&◌}
use mathlib.Core.List.{List, [], ◌∷◌, ◌++◌, map}
use native.Mathlib.Omega.{arith}

abbrev pub bit : Bool → ℕ
bit true = 1
bit false = 0

module _ {ℓ} {A : Type ℓ} where
  abbrev pub length : List A → ℕ
  length [] = 0
  length (x ∷ xs) = suc (length xs)

  unfoldable pub count : (A → Bool) → List A → ℕ
  count p [] = 0
  count p (x ∷ xs) = bit (p x) + count p xs

  pub count-nil : (p : A → Bool) → count p [] ≡ 0
  unfolding count
  count-nil p = refl

  pub count-cons : (p : A → Bool) (x : A) (xs : List A) → count p (x ∷ xs) ≡ bit (p x) + count p xs
  unfolding count
  count-cons p x xs = refl

  pub count-append : (p : A → Bool) (xs ys : List A) → count p (xs ++ ys) ≡ count p xs + count p ys
  unfolding count
  count-append p [] ys = omega arith
  count-append p (x ∷ xs) ys = omega (arith, count-append p xs ys)

  -- Tests that agree on every entry count the same.
  pub count_ext : (p q : A → Bool) (xs : List A) → ((a : A) → p a ≡ q a) → count p xs ≡ count q xs
  unfolding count
  count_ext p q [] h = refl
  count_ext p q (x ∷ xs) h = ground (arith, h x, count_ext p q xs h)

  pub count_mono :
      (p q : A → Bool) (xs : List A) → ((a : A) → p a ≡ true → q a ≡ true) → count p xs ≤ count q xs
  unfolding count
  count_mono p q [] h = omega arith
  count_mono p q (x ∷ xs) h = ground (arith, h x, count_mono p q xs h)

  pub count_never : (p : A → Bool) (xs : List A) → ((a : A) → p a ≡ false) → count p xs ≡ 0
  unfolding count
  count_never p [] h = refl
  count_never p (x ∷ xs) h = ground (arith, h x, count_never p xs h)

  -- A list splits by a second test.
  pub count_split :
      (p q : A → Bool) (xs : List A)
      → count p xs ≡ count (λ a. p a && q a) xs + count (λ a. p a && not (q a)) xs
  unfolding count
  count_split p q [] = refl
  count_split p q (x ∷ xs) = ground (arith, count_split p q xs)

  pub length-eq-count : (xs : List A) → length xs ≡ count (λ a. true) xs
  unfolding count
  length-eq-count [] = refl
  length-eq-count (x ∷ xs) = omega (arith, length-eq-count xs)

  pub count-le-length : (p : A → Bool) (xs : List A) → count p xs ≤ length xs
  unfolding count
  count-le-length p [] = omega arith
  count-le-length p (x ∷ xs) = ground (arith, count-le-length p xs)

pub count-map {ℓ κ} :
    {A : Type ℓ} {B : Type κ} (p : B → Bool) (f : A → B) (xs : List A)
    → count p (map f xs) ≡ count (λ a. p (f a)) xs
unfolding count
count-map p f [] = refl
count-map p f (x ∷ xs) = ap (λ n. bit (p (f x)) + n) (count-map p f xs)
