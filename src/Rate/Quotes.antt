-- ===== src/Rate/Quotes.antt =====
-- What `getMany` of src/currency-rate answers: the quotients of the rates that the table has then.
use cost_x.Base.{
  ℕ, ◌≡◌, ◌⊎◌, refl, sym, ◌∙◌, subst, inl, inr, true, false, none, some, List, [], ◌∷◌, arith,
  Bool-cases, Option-cases,
}
use cost_x.Prisma.{Prisma}
use cost_x.Schema.{Currency, currency_index, DecimalValue, Db}
use cost_x.Transaction.{Result, Error, ok, err, pure, through, ◌>>=◌}
use cost_x.Group.{get}
use cost_x.Cost.{Decimals, RateRequest, RateLike, is_currency}
use cost_x.Rate.Bank.{Bank}
use cost_x.Rate.Service.{
  DerivativeMap, get_derivative_map, populate_derivative_map, rate_in, quotient, answer_rate,
  answer_all, get_many,
}
use cost_x.Rate.Saved.{IsSingle, IsSaved}
use cost_x.Rate.Again.{IsKnown}
use cost_x.Rate.Fresh.{add_requests-AreFresh}
use cost_x.Rate.Populated.{AllSaved, get-AllSaved, currency_of-index, populate-AllSaved}

module _ ⦃decimals : Decimals⦄ where
  -- The answer to a request: one within a currency, or else the rate of the source currency into
  -- rubles by that of the target currency, both known from the table.
  abbrev pub IsQuote : RateRequest → RateLike → Db → Type 0
  IsQuote dto r db =
      (r.from_currency ≡ dto.from_currency)
      × (r.to_currency ≡ dto.to_currency)
      × (r.date ≡ dto.date)
      × (((is_currency dto.from_currency dto.to_currency ≡ true) × (r.rate ≡ decimals.one))
          ⊎ ((is_currency dto.from_currency dto.to_currency ≡ false)
              × ((a b : DecimalValue) × IsKnown dto.from_currency dto.date a db
                  × IsKnown dto.to_currency dto.date b db
                  × (r.rate ≡ decimals.div a b))))

  abbrev pub AreQuotes : List RateRequest → List RateLike → Db → Type 0
  AreQuotes [] [] db = Unit {0}
  AreQuotes [] (r ∷ rates) db = ⊥
  AreQuotes (dto ∷ dtos) [] db = ⊥
  AreQuotes (dto ∷ dtos) (r ∷ rates) db = IsQuote dto r db × AreQuotes dtos rates db

  rate_in-IsKnown :
      (m : DerivativeMap) (c : Currency) (date : ℕ) (a : DecimalValue) (db : Db)
      → AllSaved m db
      → rate_in m c date ≡ ok a
      → IsKnown c date a db
  rate_in-IsKnown m c date a db all h = elim (Bool-cases (is_currency c Currency.byn)) [
    | inl here ↦
        let e : a ≡ decimals.one = ground (arith, here, h) in
        ((λ _. e), (λ away. absurd (cc (here, away))))
    | inr away ↦ elim (Option-cases (get (currency_index c) m)) [
      | inl absent ↦ absurd (ground (arith, away, absent, h))
      | inr (dates, there) ↦ elim (Option-cases (get date dates)) [
        | inl unset ↦ absurd (ground (arith, away, there, unset, h))
        | inr (none, empty) ↦ absurd (ground (arith, away, there, empty, h))
        | inr (some x, full) ↦
            let e : x ≡ a = ground (arith, away, there, full, h) in
            (
              (λ here. absurd (cc (here, away))),
              (λ _.
                  subst (λ q. IsSaved q date a db) (currency_of-index c)
                    (get-AllSaved (currency_index c) dates m db all there date a
                      (subst (λ y. get date dates ≡ some (some y)) e full))),
            )
      ]
    ]
  ]

  quotient_parts :
      (p q : Result DecimalValue) (x : DecimalValue)
      → quotient p q ≡ ok x
      → (a b : DecimalValue) × (p ≡ ok a) × (q ≡ ok b) × (x ≡ decimals.div a b)
  quotient_parts (ok a) (ok b) x h = (a, b, refl, refl, ground arith)
  quotient_parts (ok a) (err e) x h = absurd (ground arith)
  quotient_parts (err e) q x h = absurd (ground arith)

  answer-IsQuote :
      (m : DerivativeMap) (dto : RateRequest) (x : DecimalValue) (db : Db)
      → AllSaved m db
      → answer_rate m dto ≡ ok x
      → IsQuote dto
          (record {
            from_currency = dto.from_currency;
            to_currency = dto.to_currency;
            date = dto.date;
            rate = x;
          })
          db
  answer-IsQuote m dto x db all h =
      elim (Bool-cases (is_currency dto.from_currency dto.to_currency)) [
        | inl same ↦ (refl, refl, refl, inl (same, ground (arith, same, h)))
        | inr other ↦
            let (a, b, source, target, e) =
              quotient_parts (rate_in m dto.from_currency dto.date)
                (rate_in m dto.to_currency dto.date) x (ground (arith, other, h)) in
            (
              refl,
              refl,
              refl,
              inr (
                other,
                (
                  a,
                  b,
                  rate_in-IsKnown m dto.from_currency dto.date a db all source,
                  rate_in-IsKnown m dto.to_currency dto.date b db all target,
                  e,
                ),
              ),
            )
      ]

  result_cases :
      (r : Result DecimalValue) → ((a : DecimalValue) × (r ≡ ok a)) ⊎ ((e : Error) × (r ≡ err e))
  result_cases (ok a) = inl (a, refl)
  result_cases (err e) = inr (e, refl)

  answer_all-AreQuotes :
      (m : DerivativeMap) (dtos : List RateRequest) (db : Db) {rates : List RateLike} {db' : Db}
      → AllSaved m db
      → answer_all m dtos db ≡ ok (rates, db')
      → (db' ≡ db) × AreQuotes dtos rates db
  unfolding answer_all
  answer_all-AreQuotes m [] db {rates} all h =
      let e : rates ≡ [] = ground arith in
      (ground arith, subst (λ rs. AreQuotes [] rs db) (sym e) tt)
  answer_all-AreQuotes m (dto ∷ dtos) db {rates} {db'} all h =
      elim (result_cases (answer_rate m dto)) [
        | inr (e, fails) ↦ absurd (ground (arith, fails, h))
        | inl (x, answers) ↦
            let r : RateLike = record {
              from_currency = dto.from_currency;
              to_currency = dto.to_currency;
              date = dto.date;
              rate = x;
            } in
            let h' : (answer_all m dtos >>= (λ rest. pure (r ∷ rest))) db ≡ ok (rates, db') =
              rw (answers, answer_all) at h in
            through (answer_all m dtos) (λ rest. pure (r ∷ rest)) db h'
              λ rest db1 later last.
                let (same, quotes) = answer_all-AreQuotes m dtos db all later in
                let e : rates ≡ r ∷ rest = ground arith in
                let e' : db' ≡ db1 = ground arith in
                (
                  e' ∙ same,
                  subst (λ rs. AreQuotes (dto ∷ dtos) rs db) (sym e)
                      (answer-IsQuote m dto x db all answers, quotes),
                )
      ]

module _ ⦃prisma : Prisma⦄ ⦃bank : Bank⦄ ⦃decimals : Decimals⦄ where
  -- When no day has two rates of a currency and many rates were got, then still no day has two, and
  -- the answers are, in the order of the requests, for the currencies and the day of each: one
  -- within a currency, or else the rate of the source currency into rubles by that of the target
  -- currency, both of which the table has for that day, or one for the ruble itself.
  pub get_many-AreQuotes :
      (dtos : List RateRequest) (db : Db) {rates : List RateLike} {db' : Db}
      → IsSingle db
      → get_many dtos db ≡ ok (rates, db')
      → IsSingle db' × AreQuotes dtos rates db'
  unfolding get_many get_derivative_map
  get_many-AreQuotes dtos db {rates} {db'} single h =
      through (populate_derivative_map (get_derivative_map dtos)) (λ m. answer_all m dtos) db h
        λ m db1 populates answers.
          let (single1, _, all) =
            populate-AllSaved (get_derivative_map dtos) db single (add_requests-AreFresh [] dtos tt)
              populates in
          let (same, quotes) = answer_all-AreQuotes m dtos db1 all answers in
          (subst IsSingle (sym same) single1, subst (AreQuotes dtos rates) (sym same) quotes)
