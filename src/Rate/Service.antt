-- ===== src/Rate/Service.antt =====
-- src/currency-rate/currency-rate.service.ts. A date is a day, which `DateService` writes and reads
-- back. Of the two calls that `get` starts together, the queries come first and then the rest of
-- each.
use cost_x.Base.{ℕ, Bool, ◌&&◌, Option, none, some, List, [], ◌∷◌, ◌==◌, not, if◌then◌else◌}
use cost_x.Prisma.{Prisma}
use cost_x.Schema.{Currency, currency_index, CurrencyRate, DecimalValue}
use cost_x.Transaction.{
  M, Result, ok, err, pure, throw, validation_error, internal_server_error, type_error, ◌>>=◌,
}
use cost_x.Delegate
use cost_x.Delegate.{find, list, create}
use cost_x.Group.{Dict, get, set}
use cost_x.Loader.{has_key}
use cost_x.Cost.{Decimals, RateRequest, RateLike, is_currency}
use cost_x.Rate.Bank.{Bank, pull_currency_rate}

abbrev pub new_rate : Currency → ℕ → DecimalValue → ℕ → CurrencyRate
new_rate from_currency date rate id = record {
  id = id;
  date = date;
  rate = rate;
  from_currency = from_currency;
  to_currency = Currency.byn;
}

-- `{ date, fromCurrency, toCurrency: BYN }`
abbrev pub is_rate_of : Currency → ℕ → CurrencyRate → Bool
is_rate_of from_currency date r =
    r.date == date
    && is_currency r.from_currency from_currency
    && is_currency r.to_currency Currency.byn

module _ ⦃prisma : Prisma⦄ ⦃bank : Bank⦄ where
  -- `create` without a rate is refused by the client.
  unfoldable pub pull_and_save : Currency → ℕ → M DecimalValue
  pull_and_save from_currency date_part = elim (pull_currency_rate from_currency date_part) [
    | none ↦ throw validation_error
    | some rate ↦ do
      created_currency_rate ← create Delegate.currency_rate (new_rate from_currency date_part rate)
      pure created_currency_rate.rate
  ]

module _ ⦃prisma : Prisma⦄ ⦃bank : Bank⦄ ⦃decimals : Decimals⦄ where
  -- What `findOrPull` does with the row that it found, or with none.
  unfoldable pub found_or_pull : Currency → ℕ → Option CurrencyRate → M DecimalValue
  found_or_pull from_currency date none = pull_and_save from_currency date
  found_or_pull from_currency date (some found) = pure found.rate

  -- `findOrPull` up to the answer to its query, with what is left to do then. A call that sends no
  -- query is done, or has failed.
  unfoldable pub start_find_or_pull : RateRequest → M (M DecimalValue)
  start_find_or_pull dto =
      if not (is_currency dto.to_currency Currency.byn)
      then pure (throw internal_server_error)
      else if is_currency dto.from_currency dto.to_currency
      then pure (pure decimals.one)
      else find Delegate.currency_rate (is_rate_of dto.from_currency dto.date)
        >>= (λ found. pure (found_or_pull dto.from_currency dto.date found))

  -- `Promise.all` starts both calls: both queries are sent before either call goes on.
  unfoldable pub get_rate_of : RateRequest → M DecimalValue
  get_rate_of dto = do
    source_started ←
        start_find_or_pull (record {
          from_currency = dto.from_currency;
          to_currency = Currency.byn;
          date = dto.date;
        })
    target_started ←
        start_find_or_pull
          (record { from_currency = dto.to_currency; to_currency = Currency.byn; date = dto.date })
    source_rate ← source_started
    target_rate ← target_started
    pure (decimals.div source_rate target_rate)

-- `Map<Currency, Map<string, Decimal>>`; a currency is its place in the enum.
abbrev pub DerivativeMap : Type 0
DerivativeMap = Dict (Dict (Option DecimalValue))

abbrev pub currency_of : ℕ → Currency
currency_of place =
    if place == 0 then Currency.byn else if place == 1 then Currency.usd else Currency.eur

-- `if (!acc.has(currency)) acc.set(currency, new Map()); acc.get(currency).set(datePart, null);`
abbrev pub add_date : Currency → ℕ → DerivativeMap → DerivativeMap
add_date currency date acc = elim (get (currency_index currency) acc) [
  | none ↦ set (currency_index currency) (set date none []) acc
  | some dates ↦ set (currency_index currency) (set date none dates) acc
]

abbrev pub add_foreign_date : Currency → ℕ → DerivativeMap → DerivativeMap
add_foreign_date currency date acc =
    if is_currency currency Currency.byn then acc else add_date currency date acc

-- The round of `dtos.reduce`.
abbrev pub add_request : DerivativeMap → RateRequest → DerivativeMap
add_request acc cur =
    if is_currency cur.from_currency cur.to_currency
    then acc
    else add_foreign_date cur.to_currency cur.date (add_foreign_date cur.from_currency cur.date acc)

abbrev pub add_requests : DerivativeMap → List RateRequest → DerivativeMap
add_requests acc [] = acc
add_requests acc (cur ∷ dtos) = add_requests (add_request acc cur) dtos

unfoldable pub get_derivative_map : List RateRequest → DerivativeMap
get_derivative_map = add_requests []

abbrev pub keys : {V : Type 0} → Dict V → List ℕ
keys [] = []
keys ((k, v) ∷ rest) = k ∷ keys rest

-- `for (const currencyRate of currencyRates) …set(dateStr, currencyRate.rate)`
abbrev pub fill_rates : Dict (Option DecimalValue) → List CurrencyRate → Dict (Option DecimalValue)
fill_rates dates [] = dates
fill_rates dates (r ∷ rates) = fill_rates (set r.date (some r.rate) dates) rates

module _ ⦃prisma : Prisma⦄ ⦃bank : Bank⦄ where
  -- The loop over the entries: an entry without a rate is pulled, and keeps its place.
  unfoldable pub pull_missing :
      Currency → Dict (Option DecimalValue) → M (Dict (Option DecimalValue))
  pull_missing currency [] = pure []
  pull_missing currency ((date_part, some rate) ∷ rest) = do
    filled ← pull_missing currency rest
    pure ((date_part, some rate) ∷ filled)
  pull_missing currency ((date_part, none) ∷ rest) = do
    pulled_rate ← pull_and_save currency date_part
    filled ← pull_missing currency rest
    pure ((date_part, some pulled_rate) ∷ filled)

  -- The loop over the currencies.
  unfoldable pub populate_derivative_map : DerivativeMap → M DerivativeMap
  populate_derivative_map [] = pure []
  populate_derivative_map ((currency, dates) ∷ rest) = do
    currency_rates ← list Delegate.currency_rate (λ r.
        has_key (keys dates) r.date
        && is_currency r.from_currency (currency_of currency)
        && is_currency r.to_currency Currency.byn)
    filled ← pull_missing (currency_of currency) (fill_rates dates currency_rates)
    populated ← populate_derivative_map rest
    pure ((currency, filled) ∷ populated)

module _ ⦃decimals : Decimals⦄ where
  -- `derivativeMap.get(currency).get(datePart)`, which `Decimal.div` cannot do without
  abbrev pub rate_in : DerivativeMap → Currency → ℕ → Result DecimalValue
  rate_in derivative_map currency date =
      if is_currency currency Currency.byn
      then ok decimals.one
      else elim (get (currency_index currency) derivative_map) [
        | none ↦ err type_error
        | some dates ↦ elim (get date dates) [
          | none ↦ err type_error
          | some none ↦ err type_error
          | some (some rate) ↦ ok rate
        ]
      ]

  abbrev pub quotient : Result DecimalValue → Result DecimalValue → Result DecimalValue
  quotient (ok source_rate) (ok target_rate) = ok (decimals.div source_rate target_rate)
  quotient (err e) _ = err e
  quotient (ok source_rate) (err e) = err e

  abbrev pub answer_rate : DerivativeMap → RateRequest → Result DecimalValue
  answer_rate derivative_map dto =
      if is_currency dto.from_currency dto.to_currency
      then ok decimals.one
      else quotient (rate_in derivative_map dto.from_currency dto.date)
          (rate_in derivative_map dto.to_currency dto.date)

  -- `dtos.map((dto) => …)`
  unfoldable pub answer_all : DerivativeMap → List RateRequest → M (List RateLike)
  answer_all derivative_map [] = pure []
  answer_all derivative_map (dto ∷ dtos) = elim (answer_rate derivative_map dto) [
    | err e ↦ throw e
    | ok rate ↦ do
      rest ← answer_all derivative_map dtos
      pure (
          record {
            from_currency = dto.from_currency;
            to_currency = dto.to_currency;
            date = dto.date;
            rate = rate;
          }
          ∷ rest)
  ]

module _ ⦃prisma : Prisma⦄ ⦃bank : Bank⦄ ⦃decimals : Decimals⦄ where
  unfoldable pub get_many : List RateRequest → M (List RateLike)
  get_many dtos = do
    derivative_map ← populate_derivative_map (get_derivative_map dtos)
    answer_all derivative_map dtos
