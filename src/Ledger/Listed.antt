-- ===== src/Ledger/Listed.antt =====
-- The payments of the list of an extraction are payments of its source: what the guard of
-- src/item-extract has found out, when ids are unique.
use cost_x.Base.{
  ℕ, ◌≡◌, ◌<◌, Bool, true, false, not, ◌&&◌, List, [], ◌∷◌, arith, count, map, length, count_split,
  count_ext, count_never, ◌==◌, Bool-cases, inl, inr, ltb,
}
use cost_x.Prisma.{Prisma}
use cost_x.Schema.{Payment, Item, Db}
use cost_x.Transaction.{ok}
use cost_x.Item.{has_id, invalid_ids, is_payment_of, validate_extract}
use cost_x.Ledger.References.{IsUniqueBy, count_either}

-- A payment whose id is listed, and that is not of the item.
abbrev pub is_foreign : ℕ → List ℕ → Payment → Bool
is_foreign item_id ids p = has_id ids p.id && not (is_payment_of item_id p)

has_id-count :
    (k : ℕ) (rows : List Payment)
    → has_id (map (λ (p : Payment). p.id) rows) k ≡ true
    → 0 < count (λ p. p.id == k) rows
unfolding count
has_id-count k [] h = absurd (ground arith)
has_id-count k (p ∷ rows) h = ground (arith, h, has_id-count k rows)

module _ ⦃prisma : Prisma⦄ (item_id : ℕ) (rows : List Payment)
    (unique : IsUniqueBy (λ (p : Payment). p.id) rows) where
  abbrev found : List Payment
  found = prisma.find_many (is_payment_of item_id) rows

  listed_one :
      (k : ℕ)
      → has_id (map (λ (p : Payment). p.id) found) k ≡ true
      → count (λ p. p.id == k && not (is_payment_of item_id p)) rows ≡ 0
  listed_one k h = omega (
    arith,
    has_id-count k found h,
    prisma.count-find_many (λ p. p.id == k) (is_payment_of item_id) rows,
    unique k,
    count_split (λ p. p.id == k) (is_payment_of item_id) rows,
    count_ext (λ p. is_payment_of item_id p && p.id == k)
        (λ p. p.id == k && is_payment_of item_id p) rows (λ p. ground arith),
  )

  pub none_foreign :
      (ids : List ℕ)
      → length (invalid_ids (map (λ (p : Payment). p.id) found) ids) ≡ 0
      → count (is_foreign item_id ids) rows ≡ 0
  none_foreign [] h = count_never (is_foreign item_id []) rows (λ p. ground arith)
  none_foreign (k ∷ ids) h = elim (Bool-cases (has_id (map (λ (p : Payment). p.id) found) k)) [
    | inl valid ↦
        let rest : length (invalid_ids (map (λ (p : Payment). p.id) found) ids) ≡ 0 =
          rw (valid) at h in
        omega (
          arith,
          listed_one k valid,
          none_foreign ids rest,
          count_either (is_foreign item_id (k ∷ ids))
              (λ p. p.id == k && not (is_payment_of item_id p)) (is_foreign item_id ids) rows
              (λ p e. ground (arith, e)),
        )
    | inr invalid ↦ absurd (ground (arith, invalid, h))
  ]

module _ ⦃prisma : Prisma⦄ where
  pub validated_none_foreign :
      (item : Item) (ids : List ℕ) (db : Db) {db' : Db}
      → IsUniqueBy (λ (p : Payment). p.id) db.payments
      → validate_extract item ids db ≡ ok (tt, db')
      → count (is_foreign item.id ids) db.payments ≡ 0
  unfolding validate_extract
  validated_none_foreign item ids db unique h =
      let all =
        map (λ (p : Payment). p.id) (prisma.find_many (is_payment_of item.id) db.payments) in
      let valid : ltb 0 (length (invalid_ids all ids)) ≡ false = ground arith in
      none_foreign item.id db.payments unique ids (ground (arith, valid))
