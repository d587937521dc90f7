-- ===== src/Rate/Itself.antt =====
-- The rate of a foreign currency against itself, which `get` of src/currency-rate pulls twice.
use cost_x.Base.{ℕ, ◌≡◌, refl, ◌∙◌, inl, inr, true, false, arith, some, Option-cases, count}
use cost_x.Prisma.{Prisma}
use cost_x.Schema.{Currency, CurrencyRate, DecimalValue, Db}
use cost_x.Transaction.{ok, after_run}
use cost_x.Delegate.{create}
use cost_x.Delegate.Laws.{find_never}
use cost_x.Cost.Sums.{is_currency_same}
use cost_x.Cost.{Decimals, RateRequest, is_currency}
use cost_x.Rate.Bank.{Bank, pull_currency_rate}
use cost_x.Rate.Service.{new_rate, is_rate_of, pull_and_save, found_or_pull, get_rate_of}
use cost_x.Rate.Saved.{with_rate}
use cost_x.Rate.Again.{rest_of, get_rate_of_started}

module _ ⦃prisma : Prisma⦄ ⦃bank : Bank⦄ ⦃decimals : Decimals⦄ where
  pulls_rest :
      (c : Currency) (date : ℕ) (x : DecimalValue) (read db : Db)
      → is_currency c Currency.byn ≡ false
      → count (is_rate_of c date) read.currency_rates ≡ 0
      → pull_currency_rate c date ≡ some x
      → rest_of c date read db
        ≡ ok (
          x,
          with_rate
              (new_rate c date x (prisma.next_id (λ (r : CurrencyRate). r.id) db.currency_rates))
              db,
        )
  unfolding found_or_pull pull_and_save create
  pulls_rest c date x read db away free answers =
      elim (Option-cases (prisma.find_first (is_rate_of c date) read.currency_rates)) [
        | inl missing ↦
            let unique = find_never (λ (r : CurrencyRate). false) db.currency_rates (λ r. refl) in
            ground (arith, away, missing, answers, unique)
        | inr (r, found) ↦ absurd (
            omega (
              arith,
              free,
              prisma.find_first_stored (is_rate_of c date) (is_rate_of c date) read.currency_rates r
                  found (prisma.find_first_some (is_rate_of c date) read.currency_rates r found),
            ))
      ]

  -- The rate between a foreign currency and itself, on a day that has no rate of it in the table, when
  -- the bank answers: it is got, and then the day has two rates of the currency.
  pub get_rate_of_itself :
      (c : Currency) (date : ℕ) (x : DecimalValue) (db : Db)
      → is_currency c Currency.byn ≡ false
      → count (is_rate_of c date) db.currency_rates ≡ 0
      → pull_currency_rate c date ≡ some x
      → (db' : Db) × (get_rate_of (record { from_currency = c; to_currency = c; date = date }) db
          ≡ ok (decimals.div x x, db'))
        × (count (is_rate_of c date) db'.currency_rates ≡ 2)
  get_rate_of_itself c date x db away free answers =
      let row = new_rate c date x (prisma.next_id (λ (r : CurrencyRate). r.id) db.currency_rates) in
      let db1 = with_rate row db in
      let row' =
        new_rate c date x (prisma.next_id (λ (r : CurrencyRate). r.id) db1.currency_rates) in
      let db2 = with_rate row' db1 in
      let dto : RateRequest = record { from_currency = c; to_currency = c; date = date } in
      let here : is_rate_of c date row ≡ true = ground (arith, is_currency_same c) in
      let here' : is_rate_of c date row' ≡ true = ground (arith, is_currency_same c) in
      (
        db2,
        get_rate_of_started dto db
            ∙ after_run (rest_of c date db) _ db (pulls_rest c date x db db away free answers) (
                after_run (rest_of c date db) _ db1 (pulls_rest c date x db db1 away free answers)
                  refl),
        ground (
          arith,
          free,
          here,
          here',
          prisma.count-insert_row (is_rate_of c date) row db.currency_rates,
          prisma.count-insert_row (is_rate_of c date) row' db1.currency_rates,
        ),
      )
