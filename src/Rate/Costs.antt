-- ===== src/Rate/Costs.antt =====
-- The rates that `getMany` answers are enough for the costs of all the items of a batch.
use cost_x.Base.{◌≡◌, ◌⊎◌, refl, ap, ◌∙◌, inl, inr, List, [], ◌∷◌, ◌++◌, map, arith}
use cost_x.Prisma.{Prisma}
use cost_x.Schema.{Currency, Payment, DecimalValue, Db}
use cost_x.Transaction.{Result, Error, ok, err, pure, through, ◌>>=◌}
use cost_x.Group.{Dict}
use cost_x.Cost.{Decimals, RateRequest, RateLike, get_required_currency_rates, map_values}
use cost_x.Cost.Sums.{sum_from}
use cost_x.Cost.RateSums.{answered, converted, HasRates, asked-HasRates, HasRates-cost}
use cost_x.Rate.Bank.{Bank}
use cost_x.Rate.Service.{
  DerivativeMap, answer_rate, answer_all, get_many, populate_derivative_map, get_derivative_map,
}
use cost_x.Rate.Aggregation.{flat_values, cost_values}

-- The value, or another if there is none.
abbrev value_or : DecimalValue → Result DecimalValue → DecimalValue
value_or x (ok a) = a
value_or x (err e) = x

module _ ⦃decimals : Decimals⦄ where
  rate_by : DerivativeMap → RateRequest → DecimalValue
  rate_by m r = value_or decimals.one (answer_rate m r)

  result_cases :
      (r : Result DecimalValue) → (r ≡ ok (value_or decimals.one r)) ⊎ ((e : Error) × (r ≡ err e))
  result_cases (ok a) = inl refl
  result_cases (err e) = inr (e, refl)

  answer_all-answered :
      (m : DerivativeMap) (dtos : List RateRequest) (db : Db) {rates : List RateLike} {db' : Db}
      → answer_all m dtos db ≡ ok (rates, db')
      → rates ≡ map (answered (rate_by m)) dtos
  unfolding answer_all rate_by
  answer_all-answered m [] db h = ground arith
  answer_all-answered m (dto ∷ dtos) db {rates} {db'} h = elim (result_cases (answer_rate m dto)) [
    | inr (e, fails) ↦ absurd (ground (arith, fails, h))
    | inl answers ↦
        let rate = value_or decimals.one (answer_rate m dto) in
        let h' : (answer_all m dtos >>= (λ rest. pure (answered (λ _. rate) dto ∷ rest))) db
            ≡ ok (rates, db') =
          rw (answers, answer_all) at h in
        through (answer_all m dtos) (λ rest. pure (answered (λ _. rate) dto ∷ rest)) db h'
          λ rest db1 later last.
            let e : rates ≡ answered (λ _. rate) dto ∷ rest = ground arith in
            e ∙ ap (λ xs. answered (λ _. rate) dto ∷ xs) (answer_all-answered m dtos db later)
  ]

  HasRates-append :
      (d : Currency) (rates : List RateLike) (xs ys : List Payment)
      → HasRates d rates (xs ++ ys)
      → HasRates d rates xs × HasRates d rates ys
  HasRates-append d rates [] ys h = (tt, h)
  HasRates-append d rates (x ∷ xs) ys (h, t) =
      let (left, right) = HasRates-append d rates xs ys t in ((h, left), right)

  -- The costs of each entry.
  costs_answered :
      (d : Currency) (rate_of : RateRequest → DecimalValue) (asked : List RateRequest)
      (dict : Dict (List Payment))
      → HasRates d (map (answered rate_of) asked) (flat_values dict)
      → cost_values (map (answered rate_of) asked) d dict
        ≡ ok (map_values (λ ps. sum_from decimals.zero (map (converted rate_of d) ps)) dict)
  costs_answered d rate_of asked [] h = refl
  costs_answered d rate_of asked ((k, ps) ∷ rest) h =
      let (here, later) =
        HasRates-append d (map (answered rate_of) asked) ps (flat_values rest) h in
      rw
        (
          HasRates-cost d rate_of asked ps here,
          costs_answered d rate_of asked rest later,
          cost_values,
        )
        refl

module _ ⦃prisma : Prisma⦄ ⦃bank : Bank⦄ ⦃decimals : Decimals⦄ where
  -- When the rates that the payments of a batch of items require are got, the cost of every item is
  -- found, and is the sum of its payments in their order, each at the rate of its request, or at
  -- one if it is in the default currency.
  pub cost_values-get_many :
      (d : Currency) (dict : Dict (List Payment)) (db : Db) {rates : List RateLike} {db' : Db}
      → get_many (get_required_currency_rates (flat_values dict) d) db ≡ ok (rates, db')
      → (rate_of : RateRequest → DecimalValue) × (rates
          ≡ map (answered rate_of) (get_required_currency_rates (flat_values dict) d))
        × (cost_values rates d dict
            ≡ ok (map_values (λ ps. sum_from decimals.zero (map (converted rate_of d) ps)) dict))
  unfolding get_many
  cost_values-get_many d dict db {rates} {db'} h =
      let asked = get_required_currency_rates (flat_values dict) d in
      through (populate_derivative_map (get_derivative_map asked)) (λ m. answer_all m asked) db h
        λ m db1 populated answers.
          let e = answer_all-answered m asked db1 answers in
          (
            rate_by m,
            e,
            rw (e) (
                costs_answered d (rate_by m) asked dict
                  (asked-HasRates d (rate_by m) (flat_values dict))),
          )
