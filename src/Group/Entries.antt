-- ===== src/Group/Entries.antt =====
-- `Map<number, V>` of JavaScript: the entries in the order in which their keys came.
use cost_x.Base.{ℕ, ◌≡◌, false, Option, none, some, List, [], ◌∷◌, arith, ◌==◌, if◌then◌else◌}

abbrev pub Dict {ℓ} : Type ℓ → Type ℓ
Dict V = List (ℕ × V)

module _ {ℓ} {V : Type ℓ} where
  unfoldable pub get : ℕ → Dict V → Option V
  get k [] = none
  get k ((j, v) ∷ rest) = let later = get k rest in if j == k then some v else later

  -- `set` keeps the place of a key that is there.
  unfoldable pub set : ℕ → V → Dict V → Dict V
  set k v [] = (k, v) ∷ []
  set k v ((j, w) ∷ rest) =
      let later = set k v rest in if j == k then (j, v) ∷ rest else (j, w) ∷ later

  pub get-set_self : (k : ℕ) (v : V) (m : Dict V) → get k (set k v m) ≡ some v
  unfolding get set
  get-set_self k v [] = ground arith
  get-set_self k v ((j, w) ∷ rest) = ground (arith, get-set_self k v rest)

  pub get-set_other :
      (k q : ℕ) (v : V) (m : Dict V) → (k == q) ≡ false → get q (set k v m) ≡ get q m
  unfolding get set
  get-set_other k q v [] apart = ground arith
  get-set_other k q v ((j, w) ∷ rest) apart = ground (arith, get-set_other k q v rest apart)
