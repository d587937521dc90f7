-- ===== src/Payment/Queries.antt =====
-- The queries of src/payment/payment.service.ts. A bound that is left out of `where` asks nothing.
use cost_x.Base.{ℕ, Bool, true, ◌&&◌, Option, none, some, List, [], ◌∷◌, ◌++◌, ◌==◌, leb}
use cost_x.Prisma.{Prisma}
use cost_x.Schema.{Payment}
use cost_x.Transaction.{M, pure, ◌>>=◌}
use cost_x.Delegate
use cost_x.Delegate.{list}
use cost_x.Group.{Dict, get, set}
use cost_x.Payment.Filter.{PaymentsFilter, is_from, is_among}

-- `lte: dateTo`
abbrev pub is_until : Option ℕ → ℕ → Bool
is_until none date = true
is_until (some date_to) date = leb date date_to

-- `{ date: { gte: dateFrom, lte: dateTo }, id: ids ? { in: ids } : undefined }`
abbrev pub is_queried : PaymentsFilter → Payment → Bool
is_queried filter p =
    is_from filter.date_from p.date && is_until filter.date_to p.date && is_among filter.ids p.id

-- The round of `payments.reduce`: `map.has(itemId)` asks whether the entry is there.
unfoldable pub add_payment : Dict (List Payment) → Payment → Dict (List Payment)
add_payment dict payment = elim (get payment.item_id dict) [
  | some payments ↦ set payment.item_id (payments ++ (payment ∷ [])) dict
  | none ↦ set payment.item_id (payment ∷ []) dict
]

unfoldable pub by_item_id : Dict (List Payment) → List Payment → Dict (List Payment)
by_item_id dict [] = dict
by_item_id dict (payment ∷ payments) = by_item_id (add_payment dict payment) payments

module _ ⦃prisma : Prisma⦄ where
  unfoldable pub get_item_payments : ℕ → PaymentsFilter → M (List Payment)
  get_item_payments item_id filter =
      list Delegate.payment (λ p. is_queried filter p && p.item_id == item_id)

  unfoldable pub get_payments_by_item_ids : List ℕ → PaymentsFilter → M (Dict (List Payment))
  get_payments_by_item_ids item_ids filter = do
    payments ←
        list Delegate.payment (λ p. is_queried filter p && is_among (some item_ids) p.item_id)
    pure (by_item_id [] payments)
