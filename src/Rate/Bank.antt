-- ===== src/Rate/Bank.antt =====
-- The HTTP interface of the national bank that src/currency-rate/currency-rate-api.service.ts asks:
-- the official rate of a currency on a day, or a failure. A failure is logged, and then
-- `pullCurrencyRate` answers nothing.
use cost_x.Base.{ℕ, Option}
use cost_x.Schema.{Currency, DecimalValue}

pub record Bank : Type 0 where
  pub official_rate : Currency → ℕ → Option DecimalValue

module _ ⦃bank : Bank⦄ where
  unfoldable pub pull_currency_rate : Currency → ℕ → Option DecimalValue
  pull_currency_rate currency date_part = bank.official_rate currency date_part
