-- ===== src/Payment/Filter.antt =====
-- The pure part of src/payment/payment.service.ts: `filterPayments`, `getFirstPaymentDate`,
-- `getLastPaymentDate`. A `Date` is never falsy.
use cost_x.Base.{
  ℕ, Bool, true, false, ◌&&◌, Option, none, some, List, [], ◌∷◌, ◌==◌, ◌||◌, ltb, leb,
  if◌then◌else◌,
}
use cost_x.Schema.{Payment}

pub record PaymentsFilter : Type 0 where
  pub date_from : Option ℕ
  pub date_to : Option ℕ
  pub ids : Option (List ℕ)

-- `dateFrom ? dateFrom <= date : true`
abbrev pub is_from : Option ℕ → ℕ → Bool
is_from none date = true
is_from (some date_from) date = leb date_from date

-- `dateTo ? dateTo > date : true`
abbrev pub is_before : Option ℕ → ℕ → Bool
is_before none date = true
is_before (some date_to) date = ltb date date_to

-- `ids ? ids.includes(id) : true`
abbrev pub is_among : Option (List ℕ) → ℕ → Bool
is_among none id = true
is_among (some []) id = false
is_among (some (k ∷ ids)) id = k == id || is_among (some ids) id

-- `filterPayments`
unfoldable pub filter_payments : PaymentsFilter → List Payment → List Payment
filter_payments filters [] = []
filter_payments filters (p ∷ payments) =
    let rest = filter_payments filters payments in
    if is_from filters.date_from p.date
      && is_before filters.date_to p.date
      && is_among filters.ids p.id
    then p ∷ rest
    else rest
