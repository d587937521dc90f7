-- ===== src/Cost/ByCurrency.antt =====
-- src/item-cost/cost-by-currency.service.ts, and its use in
-- src/payments-aggregation/payments-aggregation.service.ts.
use cost_x.Base.{ℕ, List, [], ◌∷◌}
use cost_x.Prisma.{Prisma}
use cost_x.Schema.{Currency, Payment, DecimalValue}
use cost_x.Transaction.{M, pure, ◌>>=◌}
use cost_x.Group.{Dict}
use cost_x.Payment.{PaymentsFilter, get_payments_by_item_ids}
use cost_x.Cost.Decimal.{Decimals}

pub record CostByCurrency : Type 0 where
  pub byn : DecimalValue
  pub usd : DecimalValue
  pub eur : DecimalValue

-- `acc[currency]`
abbrev pub cost_in : Currency → CostByCurrency → DecimalValue
cost_in Currency.byn cost = cost.byn
cost_in Currency.usd cost = cost.usd
cost_in Currency.eur cost = cost.eur

-- `acc[currency] = value`
abbrev pub set_cost_in : Currency → DecimalValue → CostByCurrency → CostByCurrency
set_cost_in Currency.byn value cost = record cost { byn = value }
set_cost_in Currency.usd value cost = record cost { usd = value }
set_cost_in Currency.eur value cost = record cost { eur = value }

-- `new Map(Array.from(dict, ([id, value]) => [id, f(value)]))`
abbrev pub map_values : {A B : Type 0} → (A → B) → Dict A → Dict B
map_values f [] = []
map_values f ((k, a) ∷ rest) = (k, f a) ∷ map_values f rest

module _ ⦃decimals : Decimals⦄ where
  -- The round of `payments.reduce`.
  abbrev pub add_cost : CostByCurrency → Payment → CostByCurrency
  add_cost acc cur = set_cost_in cur.currency (decimals.add (cost_in cur.currency acc) cur.cost) acc

  abbrev pub add_costs : CostByCurrency → List Payment → CostByCurrency
  add_costs acc [] = acc
  add_costs acc (cur ∷ payments) = add_costs (add_cost acc cur) payments

  unfoldable pub get_cost_by_currency : List Payment → CostByCurrency
  get_cost_by_currency =
      add_costs (record { byn = decimals.zero; usd = decimals.zero; eur = decimals.zero })

module _ ⦃decimals : Decimals⦄ ⦃prisma : Prisma⦄ where
  unfoldable pub get_cost_by_currency_by_item_ids :
      List ℕ → PaymentsFilter → M (Dict CostByCurrency)
  get_cost_by_currency_by_item_ids item_ids filter = do
    payments_by_item_id ← get_payments_by_item_ids item_ids filter
    pure (map_values get_cost_by_currency payments_by_item_id)
