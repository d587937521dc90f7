-- ===== src/Rate/Aggregation.antt =====
-- `getCostInDefaultCurrencyByItemIds` of
-- src/payments-aggregation/payments-aggregation.service.ts.
use cost_x.Base.{ℕ, Option, none, some, List, [], ◌∷◌, ◌++◌}
use cost_x.Prisma.{Prisma}
use cost_x.Schema.{Currency, Payment, DecimalValue}
use cost_x.Transaction.{M, Result, ok, err, pure, throw, type_error, ◌>>=◌}
use cost_x.Group.{Dict}
use cost_x.Payment.{PaymentsFilter, get_payments_by_item_ids}
use cost_x.Cost.{
  Decimals, RateLike, get_required_currency_rates, get_cost_in_default_currency,
  get_default_currency_by_item_ids,
}
use cost_x.Rate.Bank.{Bank}
use cost_x.Rate.Service.{get_many}

-- `Array.from(dict.values()).flat()`
abbrev pub flat_values : {A : Type 0} → Dict (List A) → List A
flat_values [] = []
flat_values ((k, values) ∷ rest) = values ++ flat_values rest

module _ ⦃decimals : Decimals⦄ where
  -- `new Map(Array.from(paymentsByItemId, …))`
  abbrev pub cost_values :
      List RateLike → Currency → Dict (List Payment) → Result (Dict DecimalValue)
  cost_values currency_rates default_currency [] = ok []
  cost_values currency_rates default_currency ((item_id, payments) ∷ rest) =
      let costs = cost_values currency_rates default_currency rest in
      elim (get_cost_in_default_currency payments currency_rates default_currency) [
        | err e ↦ err e
        | ok cost ↦ elim costs [ err e ↦ err e | ok costs' ↦ ok ((item_id, cost) ∷ costs') ]
      ]

abbrev pub from_result : {A : Type 0} → Result A → M A
from_result (ok a) = pure a
from_result (err e) = throw e

module _ ⦃prisma : Prisma⦄ ⦃bank : Bank⦄ ⦃decimals : Decimals⦄ where
  abbrev pub costs_of : Dict (List Payment) → Currency → M (Dict DecimalValue)
  costs_of payments_by_item_id default_currency = do
    currency_rates ←
        get_many (get_required_currency_rates (flat_values payments_by_item_id) default_currency)
    from_result (cost_values currency_rates default_currency payments_by_item_id)

  -- Without items there is no default currency and no payment; payments without an item cannot be
  -- in the table, and would ask for rates into no currency.
  abbrev pub costs_if : Dict (List Payment) → Option Currency → M (Dict DecimalValue)
  costs_if payments_by_item_id (some default_currency) =
      costs_of payments_by_item_id default_currency
  costs_if [] none = pure []
  costs_if (_ ∷ _) none = throw type_error

  unfoldable pub get_cost_in_default_currency_by_item_ids :
      List ℕ → PaymentsFilter → M (Dict DecimalValue)
  get_cost_in_default_currency_by_item_ids item_ids filter = do
    payments_by_item_id ← get_payments_by_item_ids item_ids filter
    default_currency ← get_default_currency_by_item_ids item_ids
    costs_if payments_by_item_id default_currency
