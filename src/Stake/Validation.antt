-- ===== src/Stake/Validation.antt =====
-- Which stakes `validateStakes` lets through, said without its loops.
use cost_x.Base.{
  ℕ, ◌+◌, ◌≤◌, ◌≡◌, ◌↔◌, refl, sym, ap, ◌∙◌, inl, inr, Bool, true, false, not, ◌&&◌, List, [], ◌∷◌,
  map, arith, count, bit, ltb, length, ◌==◌, is_none, Bool-cases,
}
use cost_x.Prisma.{Prisma}
use cost_x.Schema.{Item, WorkspaceMember, Db}
use cost_x.Transaction.{ok}
use cost_x.Loader.{has_key}
use cost_x.Membership.{list_active_by_workspace_id}
use cost_x.Stake.Numbers.{Numbers, Radash, is_negative, is_non_positive}
use cost_x.Stake.Service.{MemberStake}
use cost_x.Stake.Override.{
  duplicates_from, member_ids, negative_stakes, sum_of_values, zero_value, is_some_entry,
  validate_stakes,
}

-- Each id stands in the list once at most.
abbrev pub IsDistinct : List ℕ → Type 0
IsDistinct ids = (k : ℕ) → count (λ i. i == k) ids ≤ 1

abbrev IsDistinctAfter : List ℕ → List ℕ → Type 0
IsDistinctAfter seen ids = (k : ℕ) → count (λ i. i == k) ids + bit (has_key seen k) ≤ 1

no_duplicates-IsDistinctAfter :
    (seen ids : List ℕ)
    → is_some_entry (duplicates_from seen ids) ≡ false
    → IsDistinctAfter seen ids
unfolding count
no_duplicates-IsDistinctAfter seen [] h k = ground arith
no_duplicates-IsDistinctAfter seen (id ∷ ids) h k = elim (Bool-cases (has_key seen id)) [
  | inl again ↦ absurd (ground (arith, again, h))
  | inr new ↦
      let rest : is_some_entry (duplicates_from (id ∷ seen) ids) ≡ false = rw (new) at h in
      let later = no_duplicates-IsDistinctAfter (id ∷ seen) ids rest k in
      elim (Bool-cases (id == k)) [
        | inl same ↦
            let e : id ≡ k = ground arith in
            let new' : has_key seen k ≡ false = rw (e) at new in ground (arith, same, new', later)
        | inr other ↦ ground (arith, other, later)
      ]
]

IsDistinctAfter-no_duplicates :
    (seen ids : List ℕ)
    → IsDistinctAfter seen ids
    → is_some_entry (duplicates_from seen ids) ≡ false
unfolding count
IsDistinctAfter-no_duplicates seen [] h = refl
IsDistinctAfter-no_duplicates seen (id ∷ ids) h =
    let same : (id == id) ≡ true = ground arith in
    let new : has_key seen id ≡ false = ground (arith, same, h id) in
    rw (new) (IsDistinctAfter-no_duplicates (id ∷ seen) ids (λ k. later k))
  where
    later : (k : ℕ) → count (λ i. i == k) ids + bit (has_key (id ∷ seen) k) ≤ 1
    later k = elim (Bool-cases (id == k)) [
      | inl here ↦ ground (arith, here, h k)
      | inr away ↦ ground (arith, away, h k)
    ]

no_entry_nil : (xs : List ℕ) (k : ℕ) → is_some_entry xs ≡ false → has_key xs k ≡ false
no_entry_nil [] k h = refl
no_entry_nil (x ∷ xs) k h = absurd (ground arith)

nil_no_entry : (xs : List ℕ) → ((k : ℕ) → has_key xs k ≡ false) → is_some_entry xs ≡ false
nil_no_entry [] h = refl
nil_no_entry (x ∷ xs) h = absurd (ground (arith, h x))

has_key-map :
    {Row : Type 0} (key : Row → ℕ) (k : ℕ) (rows : List Row)
    → has_key (map key rows) k ≡ ltb 0 (count (λ r. key r == k) rows)
unfolding count
has_key-map key k [] = ground arith
has_key-map key k (r ∷ rows) = elim (Bool-cases (key r == k)) [
  | inl same ↦ ground (arith, same)
  | inr other ↦ ground (arith, other, has_key-map key k rows)
]

negative-count :
    (stakes : List MemberStake)
    → length (negative_stakes stakes) ≡ count (λ s. is_negative s.value) stakes
unfolding count
negative-count [] = refl
negative-count (s ∷ stakes) = elim (Bool-cases (is_negative s.value)) [
  | inl below ↦ rw (below) (ground (arith, negative-count stakes))
  | inr fine ↦ rw (fine) (omega (arith, negative-count stakes))
]

-- The active members of the workspace with an id.
abbrev pub is_active_member : ℕ → ℕ → WorkspaceMember → Bool
is_active_member workspace_id k m =
    (is_none m.removed_at && m.workspace_id == workspace_id) && m.id == k

module _ ⦃numbers : Numbers⦄ where
  -- One stake for each active member and none for others, no value below zero, and a sum above
  -- zero.
  pub record IsValid (item : Item) (stakes : List MemberStake) (db : Db) : Type 0 where
    pub distinct : IsDistinct (member_ids stakes)
    pub members :
        (k : ℕ)
        → has_key (member_ids stakes) k
          ≡ ltb 0 (count (is_active_member item.workspace_id k) db.workspace_members)
    pub none_negative : count (λ s. is_negative s.value) stakes ≡ 0
    pub positive : is_non_positive (sum_of_values zero_value stakes) ≡ false

module _ ⦃prisma : Prisma⦄ ⦃numbers : Numbers⦄ ⦃radash : Radash⦄ (item : Item)
    (stakes : List MemberStake) (db : Db) where
  abbrev active_ids : List ℕ
  active_ids =
      map (λ (m : WorkspaceMember). m.id)
        (prisma.find_many
          (λ (m : WorkspaceMember). is_none m.removed_at && m.workspace_id == item.workspace_id)
          db.workspace_members)

  active_ids_lem :
      (k : ℕ)
      → has_key active_ids k
        ≡ ltb 0 (count (is_active_member item.workspace_id k) db.workspace_members)
  active_ids_lem k =
      has_key-map (λ (m : WorkspaceMember). m.id) k _
      ∙ ap (ltb 0) (prisma.count-find_many (λ m. m.id == k) _ db.workspace_members)

  -- The five tests, none of which throws.
  abbrev PassesTests : Type 0
  PassesTests =
      (is_some_entry (duplicates_from [] (member_ids stakes)) ≡ false)
      × (is_some_entry (radash.diff active_ids (member_ids stakes)) ≡ false)
      × (is_some_entry (radash.diff (member_ids stakes) active_ids) ≡ false)
      × (is_some_entry (negative_stakes stakes) ≡ false)
      × (is_non_positive (sum_of_values zero_value stakes) ≡ false)

  tests_of : validate_stakes item stakes db ≡ ok (tt, db) → PassesTests
  unfolding validate_stakes list_active_by_workspace_id
  tests_of h = (ground arith, ground arith, ground arith, ground arith, ground arith)

  validate_of : PassesTests → validate_stakes item stakes db ≡ ok (tt, db)
  unfolding validate_stakes list_active_by_workspace_id
  validate_of (one, all, only, sign, sum) = rw (one, all, only, sign, sum) refl

  -- No entry in either difference: the same ids.
  same_ids :
      is_some_entry (radash.diff active_ids (member_ids stakes)) ≡ false
      → is_some_entry (radash.diff (member_ids stakes) active_ids) ≡ false
      → (k : ℕ) → has_key (member_ids stakes) k ≡ has_key active_ids k
  same_ids all only k =
      let missing = no_entry_nil (radash.diff active_ids (member_ids stakes)) k all in
      let extra = no_entry_nil (radash.diff (member_ids stakes) active_ids) k only in
      let e = radash.has_key-diff active_ids (member_ids stakes) k in
      let e' = radash.has_key-diff (member_ids stakes) active_ids k in
      both (has_key (member_ids stakes) k) (has_key active_ids k) (sym e ∙ missing) (sym e' ∙ extra)
    where
      both : (a b : Bool) → (b && not a) ≡ false → (a && not b) ≡ false → a ≡ b
      both true true h h' = refl
      both true false h h' = absurd (ground arith)
      both false true h h' = absurd (ground arith)
      both false false h h' = refl

  differences_nil :
      (a b : List ℕ)
      → ((k : ℕ) → has_key a k ≡ has_key b k)
      → is_some_entry (radash.diff a b) ≡ false
  differences_nil a b same = nil_no_entry (radash.diff a b) (λ k.
      radash.has_key-diff a b k ∙ ap (λ x. x && not (has_key b k)) (same k) ∙ never (has_key b k))
    where
      never : (x : Bool) → (x && not x) ≡ false
      never true = refl
      never false = refl

  -- Stakes come through the validation exactly when each active member of the workspace of the item
  -- has one stake and nobody else has, no value is below zero and their sum is above zero.
  pub validate_stakes_iff : (validate_stakes item stakes db ≡ ok (tt, db)) ↔ IsValid item stakes db
  validate_stakes_iff = (
    λ h.
        let (one, all, only, sign, sum) = tests_of h in
        let distinct = no_duplicates-IsDistinctAfter [] (member_ids stakes) one in
        record {
          distinct = λ k. omega (arith, distinct k);
          members = λ k. same_ids all only k ∙ active_ids_lem k;
          none_negative = ground (arith, sign, negative-count stakes);
          positive = sum;
        },
    λ valid.
        let same = λ (k : ℕ). valid.members k ∙ sym (active_ids_lem k) in
        validate_of (
          IsDistinctAfter-no_duplicates [] (member_ids stakes)
              (λ k. ground (arith, valid.distinct k)),
          differences_nil active_ids (member_ids stakes) (λ k. sym (same k)),
          differences_nil (member_ids stakes) active_ids same,
          ground (arith, valid.none_negative, negative-count stakes),
          valid.positive,
        ),
  )
