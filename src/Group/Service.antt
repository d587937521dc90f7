-- ===== src/Group/Service.antt =====
-- `GroupService`. A value that is stored is an object or an array, so `if (existing)` asks whether
-- it is there.
use cost_x.Base.{ℕ, Option, none, some, List, [], ◌∷◌, ◌++◌, map}
use cost_x.Group.Entries.{Dict, get, set}

-- `map.get(key)?.[0] || null`
abbrev pub first_of {ℓ} : {A : Type ℓ} → Option (List A) → Option A
first_of none = none
first_of (some []) = none
first_of (some (a ∷ rest)) = some a

module _ {ℓ} {A : Type ℓ} (key : A → ℕ) where
  -- One round of the loop of `mapBy`.
  abbrev pub keep_first : Dict A → A → Dict A
  keep_first result item = elim (get (key item) result) [
    | none ↦ set (key item) item result
    | some _ ↦ result
  ]

  unfoldable pub map_by_from : Dict A → List A → Dict A
  map_by_from result [] = result
  map_by_from result (item ∷ items) = map_by_from (keep_first result item) items

  -- `mapBy`
  unfoldable pub map_by : List A → Dict A
  unfolding map_by_from
  map_by items = map_by_from [] items

  -- One round of the loop of `groupBy`; `existing.push(item)` changes the array that is stored.
  abbrev pub push : Dict (List A) → A → Dict (List A)
  push result item = elim (get (key item) result) [
    | none ↦ set (key item) (item ∷ []) result
    | some existing ↦ set (key item) (existing ++ (item ∷ [])) result
  ]

  unfoldable pub group_by_from : Dict (List A) → List A → Dict (List A)
  group_by_from result [] = result
  group_by_from result (item ∷ items) = group_by_from (push result item) items

  -- `groupBy`
  unfoldable pub group_by : List A → Dict (List A)
  unfolding group_by_from
  group_by items = group_by_from [] items

  -- `sortBy`
  unfoldable pub sort_by : List A → List ℕ → List (Option A)
  unfolding group_by
  sort_by items ordered_keys = map (λ k. first_of (get k (group_by items))) ordered_keys
