-- ===== src/Group/Laws.antt =====
-- The groups of src/group/group.service.ts, said without the loops: the rows of a key, in their
-- order.
use cost_x.Base.{
  ℕ, ◌≡◌, refl, sym, ap, subst, ◌∙◌, inl, inr, Bool, true, false, Option, none, some, List, [], ◌∷◌,
  ◌++◌, map, arith, ◌==◌, if◌then◌else◌, Bool-cases, Option-cases,
}
use mathlib.Core.Path.{ap₂}
use mathlib.Core.List.{append_assoc, append-nil}
use cost_x.Group.Entries.{Dict, get, get-set_self, get-set_other}
use cost_x.Group.Service.{
  map_by, map_by_from, keep_first, group_by, group_by_from, push, first_of, sort_by,
}

module _ {ℓ} {A : Type ℓ} (key : A → ℕ) where
  -- The rows of a key.
  abbrev pub rows_of : ℕ → List A → List A
  rows_of k [] = []
  rows_of k (a ∷ rest) = let mine = rows_of k rest in if key a == k then a ∷ mine else mine

  -- The rows of a key, if there are any.
  abbrev pub some_rows : List A → Option (List A)
  some_rows [] = none
  some_rows (a ∷ rest) = some (a ∷ rest)

  -- What is stored under a key when more rows of it come.
  abbrev pub joined : Option (List A) → List A → Option (List A)
  joined none more = some_rows more
  joined (some old) more = some (old ++ more)

  abbrev or_empty : Option (List A) → List A
  or_empty none = []
  or_empty (some rows) = rows

  get-push_self :
      (result : Dict (List A)) (item : A)
      → get (key item) (push key result item)
        ≡ some (or_empty (get (key item) result) ++ (item ∷ []))
  get-push_self result item = elim (Option-cases (get (key item) result)) [
    | inl free ↦ rw (free, push) (get-set_self (key item) (item ∷ []) result)
    | inr (old, there) ↦ rw (there, push) (get-set_self (key item) (old ++ (item ∷ [])) result)
  ]

  -- After a round, the key of the item has one row more, and other keys are as before.
  get-push :
      (k : ℕ) (result : Dict (List A)) (item : A)
      → get k (push key result item)
        ≡ (if key item == k then some (or_empty (get k result) ++ (item ∷ [])) else get k result)
  get-push k result item = elim (Bool-cases (key item == k)) [
    | inl same ↦
        let e : key item ≡ k = ground arith in
        rw (same) (
          subst (λ q. get q (push key result item) ≡ some (or_empty (get q result) ++ (item ∷ [])))
            e (get-push_self result item))
    | inr other ↦ elim (Option-cases (get (key item) result)) [
      | inl free ↦ rw (other, free, push) (get-set_other (key item) k (item ∷ []) result other)
      | inr (old, there) ↦
          rw (other, there, push) (get-set_other (key item) k (old ++ (item ∷ [])) result other)
    ]
  ]

  joined-push :
      (here : Bool) (stored : Option (List A)) (item : A) (more : List A)
      → joined (if here then some (or_empty stored ++ (item ∷ [])) else stored) more
        ≡ joined stored (if here then item ∷ more else more)
  joined-push false stored item more = refl
  joined-push true none item more = refl
  joined-push true (some old) item more = ap some (append_assoc old (item ∷ []) more)

  get-group_by_from :
      (k : ℕ) (result : Dict (List A)) (items : List A)
      → get k (group_by_from key result items) ≡ joined (get k result) (rows_of k items)
  unfolding group_by_from
  get-group_by_from k result [] = joined_nil (get k result)
    where
      joined_nil : (stored : Option (List A)) → stored ≡ joined stored []
      joined_nil none = refl
      joined_nil (some old) = ap some (sym (append-nil old))
  get-group_by_from k result (item ∷ items) =
      get-group_by_from k (push key result item) items
      ∙ ap (λ stored. joined stored (rows_of k items)) (get-push k result item)
      ∙ joined-push (key item == k) (get k result) item (rows_of k items)

  -- Grouping gives, for a key, exactly the items with that key, in their order, and nothing for a
  -- key that no item has.
  pub get-group_by :
      (k : ℕ) (items : List A) → get k (group_by key items) ≡ some_rows (rows_of k items)
  unfolding group_by get
  get-group_by k items = get-group_by_from k [] items

  -- The first item with a key.
  abbrev pub first_row : List A → Option A
  first_row [] = none
  first_row (a ∷ rest) = some a

  -- Sorting gives, for each of the keys in their order, the first item with that key, or null.
  pub sort_by_lem :
      (items : List A) (keys : List ℕ)
      → sort_by key items keys ≡ map (λ k. first_row (rows_of k items)) keys
  unfolding sort_by
  sort_by_lem items [] = refl
  sort_by_lem items (k ∷ keys) =
      ap₂ (◌∷◌) (ap first_of (get-group_by k items) ∙ first_of-some_rows (rows_of k items))
        (sort_by_lem items keys)
    where
      first_of-some_rows : (rows : List A) → first_of (some_rows rows) ≡ first_row rows
      first_of-some_rows [] = refl
      first_of-some_rows (a ∷ rest) = refl

  -- What is stored under a key when more items with it come.
  abbrev kept : Option A → List A → Option A
  kept none more = first_row more
  kept (some old) more = some old

  get-keep_first_self :
      (result : Dict A) (item : A)
      → get (key item) (keep_first key result item) ≡ kept (get (key item) result) (item ∷ [])
  get-keep_first_self result item = elim (Option-cases (get (key item) result)) [
    | inl free ↦ rw (free, keep_first) (get-set_self (key item) item result)
    | inr (old, there) ↦ rw (there, keep_first) there
  ]

  get-keep_first :
      (k : ℕ) (result : Dict A) (item : A)
      → get k (keep_first key result item)
        ≡ (if key item == k then kept (get k result) (item ∷ []) else get k result)
  get-keep_first k result item = elim (Bool-cases (key item == k)) [
    | inl same ↦
        let e : key item ≡ k = ground arith in
        rw (same) (
          subst (λ q. get q (keep_first key result item) ≡ kept (get q result) (item ∷ [])) e
            (get-keep_first_self result item))
    | inr other ↦ elim (Option-cases (get (key item) result)) [
      | inl free ↦ rw (other, free, keep_first) (get-set_other (key item) k item result other)
      | inr (old, there) ↦ rw (other, there, keep_first) refl
    ]
  ]

  get-map_by_from :
      (k : ℕ) (result : Dict A) (items : List A)
      → get k (map_by_from key result items) ≡ kept (get k result) (rows_of k items)
  unfolding map_by_from
  get-map_by_from k result [] = kept_nil (get k result)
    where
      kept_nil : (stored : Option A) → stored ≡ kept stored []
      kept_nil none = refl
      kept_nil (some old) = refl
  get-map_by_from k result (item ∷ items) =
      get-map_by_from k (keep_first key result item) items
      ∙ ap (λ stored. kept stored (rows_of k items)) (get-keep_first k result item)
      ∙ kept_once (key item == k) (get k result)
    where
      kept_once :
          (here : Bool) (stored : Option A)
          → kept (if here then kept stored (item ∷ []) else stored) (rows_of k items)
            ≡ kept stored (if here then item ∷ rows_of k items else rows_of k items)
      kept_once false stored = refl
      kept_once true none = refl
      kept_once true (some old) = refl

  -- Mapping by a key gives the first item with that key, which is the first of its group.
  pub get-map_by :
      (k : ℕ) (items : List A)
      → (get k (map_by key items) ≡ first_row (rows_of k items))
        × (get k (map_by key items) ≡ first_of (get k (group_by key items)))
  unfolding map_by get
  get-map_by k items = (
    get-map_by_from k [] items,
    get-map_by_from k [] items ∙ sym (ap first_of (get-group_by k items) ∙ same (rows_of k items)),
  )
    where
      same : (rows : List A) → first_of (some_rows rows) ≡ first_row rows
      same [] = refl
      same (a ∷ rest) = refl
