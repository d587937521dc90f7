-- ===== src/Cost/DefaultCurrency.antt =====
-- src/item-cost/default-currency-cost.service.ts.
use cost_x.Base.{
  ℕ, Bool, false, ◌&&◌, ◌||◌, Option, none, some, List, [], ◌∷◌, map, ◌==◌, ltb, length,
  if◌then◌else◌,
}
use cost_x.Prisma.{Prisma}
use cost_x.Schema.{Currency, currency_index, Item, Workspace, Payment, DecimalValue}
use cost_x.Transaction.{M, Result, ok, err, pure, throw_if, internal_server_error, ◌>>=◌, ◌>>◌}
use cost_x.Delegate
use cost_x.Delegate.{list}
use cost_x.Loader.{has_key, unique}
use cost_x.Cost.Decimal.{Decimals}

abbrev pub is_currency : Currency → Currency → Bool
is_currency a b = currency_index a == currency_index b

-- `GetCurrencyRateInDto`; a date is a day.
pub record RateRequest : Type 0 where
  pub from_currency : Currency
  pub to_currency : Currency
  pub date : ℕ

-- `CurrencyRateLike`
pub record RateLike : Type 0 where
  pub from_currency : Currency
  pub to_currency : Currency
  pub date : ℕ
  pub rate : DecimalValue

abbrev pub request_of : Currency → Payment → RateRequest
request_of default_currency payment = record {
  from_currency = payment.currency;
  to_currency = default_currency;
  date = payment.date;
}

unfoldable pub get_required_currency_rates : List Payment → Currency → List RateRequest
get_required_currency_rates [] default_currency = []
get_required_currency_rates (payment ∷ payments) default_currency =
    let rest = get_required_currency_rates payments default_currency in
    if is_currency payment.currency default_currency
    then rest
    else request_of default_currency payment ∷ rest

-- The test of `currencyRates.find`.
abbrev pub is_rate_for : Currency → Payment → RateLike → Bool
is_rate_for default_currency payment rate =
    is_currency rate.from_currency payment.currency
    && is_currency rate.to_currency default_currency
    && rate.date == payment.date

abbrev pub find_rate : Currency → Payment → List RateLike → Option RateLike
find_rate default_currency payment [] = none
find_rate default_currency payment (rate ∷ rates) =
    let later = find_rate default_currency payment rates in
    if is_rate_for default_currency payment rate then some rate else later

module _ ⦃decimals : Decimals⦄ where
  unfoldable pub get_rate : Payment → List RateLike → Currency → Result DecimalValue
  get_rate payment currency_rates default_currency =
      if is_currency payment.currency default_currency
      then ok decimals.one
      else elim (find_rate default_currency payment currency_rates) [
        | none ↦ err internal_server_error
        | some currency_rate ↦ ok currency_rate.rate
      ]

  -- The loop over the payments, from a cost.
  unfoldable pub cost_from :
      DecimalValue → List Payment → List RateLike → Currency → Result DecimalValue
  cost_from cost [] currency_rates default_currency = ok cost
  cost_from cost (payment ∷ payments) currency_rates default_currency =
      elim (get_rate payment currency_rates default_currency) [
        | ok rate ↦
            cost_from (decimals.add cost (decimals.times payment.cost rate)) payments currency_rates
              default_currency
        | err e ↦ err e
      ]

  unfoldable pub get_cost_in_default_currency :
      List Payment → List RateLike → Currency → Result DecimalValue
  unfolding cost_from
  get_cost_in_default_currency payments currency_rates default_currency =
      cost_from decimals.zero payments currency_rates default_currency

-- `arr.indexOf(value) === key`, for currencies: a currency stays where it stands first.
abbrev pub has_currency : List Currency → Currency → Bool
has_currency [] c = false
has_currency (d ∷ cs) c = is_currency d c || has_currency cs c

abbrev pub unique_currencies : List Currency → List Currency → List Currency
unique_currencies seen [] = []
unique_currencies seen (c ∷ cs) =
    let rest = unique_currencies (c ∷ seen) cs in if has_currency seen c then rest else c ∷ rest

-- `defaultCurrencies[0]`
abbrev pub head_currency : List Currency → Option Currency
head_currency [] = none
head_currency (c ∷ cs) = some c

module _ ⦃prisma : Prisma⦄ where
  unfoldable pub get_default_currency_by_item_ids : List ℕ → M (Option Currency)
  get_default_currency_by_item_ids item_ids = do
    items ← list Delegate.item (λ i. has_key item_ids i.id)
    workspaces ←
        list Delegate.workspace
          (λ w. has_key (unique (map (λ (i : Item). i.workspace_id) items)) w.id)
    default_currencies ←
        pure (unique_currencies [] (map (λ (w : Workspace). w.default_currency) workspaces))
    throw_if (ltb 1 (length default_currencies)) internal_server_error
    pure (head_currency default_currencies)
