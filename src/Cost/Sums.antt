-- ===== src/Cost/Sums.antt =====
-- The costs by currency as sums over the payments.
use cost_x.Base.{◌≡◌, refl, ap, ◌∙◌, Bool, true, false, List, [], ◌∷◌, arith, if◌then◌else◌}
use cost_x.Schema.{Currency, Payment, DecimalValue}
use cost_x.Cost.Decimal.{Decimals}
use cost_x.Cost.ByCurrency.{
  CostByCurrency, cost_in, set_cost_in, add_cost, add_costs, get_cost_by_currency,
}
use cost_x.Cost.DefaultCurrency.{is_currency}

pub is_currency_eq : (a b : Currency) → is_currency a b ≡ true → a ≡ b
is_currency_eq Currency.byn Currency.byn h = refl
is_currency_eq Currency.byn Currency.usd h = absurd (ground arith)
is_currency_eq Currency.byn Currency.eur h = absurd (ground arith)
is_currency_eq Currency.usd Currency.byn h = absurd (ground arith)
is_currency_eq Currency.usd Currency.usd h = refl
is_currency_eq Currency.usd Currency.eur h = absurd (ground arith)
is_currency_eq Currency.eur Currency.byn h = absurd (ground arith)
is_currency_eq Currency.eur Currency.usd h = absurd (ground arith)
is_currency_eq Currency.eur Currency.eur h = refl

pub is_currency_same : (a : Currency) → is_currency a a ≡ true
is_currency_same a = ground arith

module _ ⦃decimals : Decimals⦄ where
  -- Values added one after the other.
  abbrev pub sum_from : DecimalValue → List DecimalValue → DecimalValue
  sum_from acc [] = acc
  sum_from acc (x ∷ xs) = sum_from (decimals.add acc x) xs

  -- The costs of the payments in a currency.
  abbrev pub costs_in : Currency → List Payment → List DecimalValue
  costs_in c [] = []
  costs_in c (p ∷ payments) =
      let rest = costs_in c payments in if is_currency p.currency c then p.cost ∷ rest else rest

  cost_in-set_cost_in :
      (c d : Currency) (x : DecimalValue) (acc : CostByCurrency)
      → cost_in c (set_cost_in d x acc) ≡ (if is_currency d c then x else cost_in c acc)
  cost_in-set_cost_in Currency.byn Currency.byn x acc = refl
  cost_in-set_cost_in Currency.byn Currency.usd x acc = refl
  cost_in-set_cost_in Currency.byn Currency.eur x acc = refl
  cost_in-set_cost_in Currency.usd Currency.byn x acc = refl
  cost_in-set_cost_in Currency.usd Currency.usd x acc = refl
  cost_in-set_cost_in Currency.usd Currency.eur x acc = refl
  cost_in-set_cost_in Currency.eur Currency.byn x acc = refl
  cost_in-set_cost_in Currency.eur Currency.usd x acc = refl
  cost_in-set_cost_in Currency.eur Currency.eur x acc = refl

  cost_in-add_costs :
      (c : Currency) (acc : CostByCurrency) (payments : List Payment)
      → cost_in c (add_costs acc payments) ≡ sum_from (cost_in c acc) (costs_in c payments)
  cost_in-add_costs c acc [] = refl
  cost_in-add_costs c acc (p ∷ payments) =
      cost_in-add_costs c (add_cost acc p) payments
      ∙ ap (λ x. sum_from x (costs_in c payments))
          (cost_in-set_cost_in c p.currency (decimals.add (cost_in p.currency acc) p.cost) acc)
      ∙ by_currency (is_currency_eq p.currency c) (is_currency p.currency c) refl
    where
      by_currency :
          (is_currency p.currency c ≡ true → p.currency ≡ c)
          → (here : Bool) → is_currency p.currency c ≡ here
          → sum_from
              (if is_currency p.currency c
                then decimals.add (cost_in p.currency acc) p.cost
                else cost_in c acc)
              (costs_in c payments)
            ≡ sum_from (cost_in c acc) (
                if is_currency p.currency c
                then p.cost ∷ costs_in c payments
                else costs_in c payments)
      by_currency same true h =
          rw (h) (
            ap (λ d. sum_from (decimals.add (cost_in d acc) p.cost) (costs_in c payments)) (same h))
      by_currency same false h = rw (h) refl

  -- The cost in a currency is the sum, in their order, of the costs of the payments in that
  -- currency.
  pub get_cost_by_currency_lem :
      (c : Currency) (payments : List Payment)
      → cost_in c (get_cost_by_currency payments) ≡ sum_from decimals.zero (costs_in c payments)
  unfolding get_cost_by_currency
  get_cost_by_currency_lem c payments =
      cost_in-add_costs c _ payments ∙ ap (λ x. sum_from x (costs_in c payments)) (start c)
    where
      start :
          (c : Currency)
          → cost_in c (record { byn = decimals.zero; usd = decimals.zero; eur = decimals.zero })
            ≡ decimals.zero
      start Currency.byn = refl
      start Currency.usd = refl
      start Currency.eur = refl
