-- ===== src/Rate/Saved.antt =====
-- The rates of the table by currency and day, and what a new one changes.
use cost_x.Base.{
  ℕ, ◌≤◌, ◌<◌, ◌≡◌, refl, subst, inl, inr, Bool, true, false, not, ◌&&◌, some, arith, count,
  count_mono, count_split, ◌==◌, Bool-cases, if◌then◌else◌,
}
use cost_x.Prisma.{Prisma}
use cost_x.Schema.{Currency, CurrencyRate, DecimalValue, Db}
use cost_x.Delegate.Laws.{find_counted}
use cost_x.Cost.Sums.{is_currency_eq, is_currency_same}
use cost_x.Rate.Service.{new_rate, is_rate_of}

abbrev pub is_decimal : DecimalValue → DecimalValue → Bool
is_decimal a b =
    (if a.negative then b.negative else not b.negative)
    && a.digits == b.digits
    && a.scale == b.scale

is_decimal_eq : (a b : DecimalValue) → is_decimal a b ≡ true → a ≡ b
is_decimal_eq a b h =
    let signs : a.negative ≡ b.negative = same_sign a.negative b.negative (ground (arith, h)) in
    let digits : a.digits ≡ b.digits = ground (arith, h) in
    let scales : a.scale ≡ b.scale = ground (arith, h) in
    λ i. record { negative = signs i; digits = digits i; scale = scales i }
  where
    same_sign : (x y : Bool) → (if x then y else not y) ≡ true → x ≡ y
    same_sign true true e = refl
    same_sign true false e = absurd (ground arith)
    same_sign false true e = absurd (ground arith)
    same_sign false false e = refl

pub is_decimal_same : (a : DecimalValue) → is_decimal a a ≡ true
is_decimal_same a = by_sign a.negative
  where
    by_sign :
        (x : Bool) → ((if x then x else not x) && a.digits == a.digits && a.scale == a.scale) ≡ true
    by_sign true = ground arith
    by_sign false = ground arith

-- No day has two rates of a currency.
abbrev pub IsSingle : Db → Type 0
IsSingle db = (c : Currency) (date : ℕ) → count (is_rate_of c date) db.currency_rates ≤ 1

-- The rate of the day is in the table.
pub record IsSaved (c : Currency) (date : ℕ) (x : DecimalValue) (db : Db) : Type 0 where
  pub there : 0 < count (is_rate_of c date) db.currency_rates
  pub only : count (λ r. is_rate_of c date r && not (is_decimal r.rate x)) db.currency_rates ≡ 0

-- What was saved before is saved still.
abbrev pub KeepsSaved : Db → Db → Type 0
KeepsSaved db db' =
    (c : Currency) (date : ℕ) (x : DecimalValue) → IsSaved c date x db → IsSaved c date x db'

module _ ⦃prisma : Prisma⦄ where
  pub find_saved :
      (c : Currency) (date : ℕ) (x : DecimalValue) (db : Db)
      → IsSaved c date x db
      → (r : CurrencyRate) × (prisma.find_first (is_rate_of c date) db.currency_rates ≡ some r)
        × (r.rate ≡ x)
  find_saved c date x db saved =
      let w = is_rate_of c date in
      let (r, found) = find_counted w db.currency_rates saved.there in
      (
        r,
        found,
        elim (Bool-cases (is_decimal r.rate x)) [
          | inl same ↦ is_decimal_eq r.rate x same
          | inr other ↦
              let fits = prisma.find_first_some w db.currency_rates r found in
              let bad : (w r && not (is_decimal r.rate x)) ≡ true = rw (fits, other) refl in
              absurd (
                omega (
                  arith,
                  saved.only,
                  prisma.find_first_stored w (λ s. w s && not (is_decimal s.rate x))
                      db.currency_rates r found bad,
                ))
        ],
      )

  pub found-IsSaved :
      (c : Currency) (date : ℕ) (db : Db) (r : CurrencyRate)
      → IsSingle db
      → prisma.find_first (is_rate_of c date) db.currency_rates ≡ some r
      → IsSaved c date r.rate db
  found-IsSaved c date db r single found =
      let w = is_rate_of c date in
      let fits = prisma.find_first_some w db.currency_rates r found in
      let good : (w r && is_decimal r.rate r.rate) ≡ true =
        rw (fits, is_decimal_same r.rate) refl in
      let stored =
        prisma.find_first_stored w (λ s. w s && is_decimal s.rate r.rate) db.currency_rates r found
          good in
      let split = count_split w (λ s. is_decimal s.rate r.rate) db.currency_rates in
      record {
        there = omega (arith, stored, split);
        only = omega (arith, stored, split, single c date);
      }

  -- The tables with one more rate.
  abbrev pub with_rate : CurrencyRate → Db → Db
  with_rate row db = record db { currency_rates = prisma.insert_row row db.currency_rates }

  same_day :
      (c c' : Currency) (date date' : ℕ) (x : DecimalValue) (id : ℕ)
      → is_rate_of c' date' (new_rate c date x id) ≡ true
      → (c ≡ c') × (date ≡ date')
  same_day c c' date date' x id h = (is_currency_eq c c' (ground (arith, h)), ground (arith, h))

  pub insert-IsSingle :
      (c : Currency) (date id : ℕ) (x : DecimalValue) (db : Db)
      → count (is_rate_of c date) db.currency_rates ≡ 0
      → IsSingle db
      → IsSingle (with_rate (new_rate c date x id) db)
  insert-IsSingle c date id x db free single c' date' =
      let row = new_rate c date x id in
      let grows = prisma.count-insert_row (is_rate_of c' date') row db.currency_rates in
      elim (Bool-cases (is_rate_of c' date' row)) [
        | inl here ↦
            let (e, e') = same_day c c' date date' x id here in
            let free' : count (is_rate_of c' date') db.currency_rates ≡ 0 =
              subst (λ k. count (is_rate_of k date') db.currency_rates ≡ 0) e
                (subst (λ k. count (is_rate_of c k) db.currency_rates ≡ 0) e' free) in
            ground (arith, here, free', grows)
        | inr away ↦ ground (arith, away, grows, single c' date')
      ]

  pub insert-KeepsSaved :
      (c : Currency) (date id : ℕ) (x : DecimalValue) (db : Db)
      → count (is_rate_of c date) db.currency_rates ≡ 0
      → KeepsSaved db (with_rate (new_rate c date x id) db)
  insert-KeepsSaved c date id x db free c' date' y saved =
      let row = new_rate c date x id in
      let w = is_rate_of c' date' in
      let odd = λ (r : CurrencyRate). w r && not (is_decimal r.rate y) in
      elim (Bool-cases (w row)) [
        | inl here ↦
            let (e, e') = same_day c c' date date' x id here in
            let free' : count w db.currency_rates ≡ 0 =
              subst (λ k. count (is_rate_of k date') db.currency_rates ≡ 0) e
                (subst (λ k. count (is_rate_of c k) db.currency_rates ≡ 0) e' free) in
            absurd (omega (arith, free', saved.there))
        | inr away ↦
            let even : odd row ≡ false = rw (away) refl in
            record {
              there =
                  ground
                    (arith, away, saved.there, prisma.count-insert_row w row db.currency_rates);
              only =
                  ground
                    (arith, even, saved.only, prisma.count-insert_row odd row db.currency_rates);
            }
      ]

  pub insert-IsSaved :
      (c : Currency) (date id : ℕ) (x : DecimalValue) (db : Db)
      → count (is_rate_of c date) db.currency_rates ≡ 0
      → IsSaved c date x (with_rate (new_rate c date x id) db)
  insert-IsSaved c date id x db free =
      let row = new_rate c date x id in
      let w = is_rate_of c date in
      let odd = λ (r : CurrencyRate). w r && not (is_decimal r.rate x) in
      let here : w row ≡ true = ground (arith, is_currency_same c) in
      let even : odd row ≡ false = rw (here, is_decimal_same x) refl in
      record {
        there = ground (arith, here, prisma.count-insert_row w row db.currency_rates);
        only = ground (
          arith,
          even,
          free,
          prisma.count-insert_row odd row db.currency_rates,
          count_mono odd w db.currency_rates (λ r e. ground (arith, e)),
        );
      }
