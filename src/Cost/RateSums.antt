-- ===== src/Cost/RateSums.antt =====
-- The rates that are asked for are enough for the cost in the default currency, which is the sum of
-- the payments at their rates.
use cost_x.Base.{
  ◌≡◌, ◌≢◌, ◌⊎◌, ◌++◌, refl, sym, ap, subst, ◌∙◌, true, false, none, some, List, [], ◌∷◌, map,
  arith, Bool-cases, Option-cases, inl, inr, if◌then◌else◌,
}
use cost_x.Schema.{Currency, Payment, DecimalValue}
use cost_x.Transaction.{ok, err, internal_server_error}
use cost_x.Cost.Decimal.{Decimals}
use cost_x.Cost.DefaultCurrency.{
  RateRequest, RateLike, is_currency, request_of, get_required_currency_rates, is_rate_for,
  find_rate, get_rate, cost_from, get_cost_in_default_currency,
}
use cost_x.Cost.Sums.{is_currency_eq, is_currency_same, sum_from}

module _ ⦃decimals : Decimals⦄ where
  -- The answer to a request.
  abbrev pub answered : (RateRequest → DecimalValue) → RateRequest → RateLike
  answered rate_of r = record {
    from_currency = r.from_currency;
    to_currency = r.to_currency;
    date = r.date;
    rate = rate_of r;
  }

  -- The payment at the rate of its currency.
  abbrev pub converted : (RateRequest → DecimalValue) → Currency → Payment → DecimalValue
  converted rate_of d p =
      decimals.times p.cost
        (if is_currency p.currency d then decimals.one else rate_of (request_of d p))

  -- A request is the request of the payment whose rate it finds.
  is_rate_for-request :
      (d : Currency) (p : Payment) (rate_of : RateRequest → DecimalValue) (r : RateRequest)
      → is_rate_for d p (answered rate_of r) ≡ true
      → r ≡ request_of d p
  is_rate_for-request d p rate_of r h =
      let from = is_currency_eq r.from_currency p.currency (ground (arith, h)) in
      let to = is_currency_eq r.to_currency d (ground (arith, h)) in
      let day : r.date ≡ p.date = ground (arith, h) in
      λ i. record { from_currency = from i; to_currency = to i; date = day i }

  -- A request that is in the list is answered by its rate.
  find_rate-answered :
      (d : Currency) (p : Payment) (rate_of : RateRequest → DecimalValue) (asked : List RateRequest)
      (found : RateLike)
      → find_rate d p (map (answered rate_of) asked) ≡ some found
      → found.rate ≡ rate_of (request_of d p)
  find_rate-answered d p rate_of [] found h = absurd (cc)
  find_rate-answered d p rate_of (r ∷ asked) found h =
      elim (Bool-cases (is_rate_for d p (answered rate_of r))) [
        | inl fits ↦
            let same = is_rate_for-request d p rate_of r fits in
            let e : some (answered rate_of r) ≡ some found = rw (fits) at h in
            let e' : answered rate_of r ≡ found = cc in
            ap (λ (x : RateLike). x.rate) (sym e') ∙ ap rate_of same
        | inr not_it ↦ find_rate-answered d p rate_of asked found (rw (not_it) at h)
      ]

  -- A payment in another currency whose request is in the list has a rate.
  find_rate_asked :
      (d : Currency) (p : Payment) (rate_of : RateRequest → DecimalValue) (r : RateRequest)
      (asked : List RateRequest)
      → r ≡ request_of d p
      → find_rate d p (map (answered rate_of) (r ∷ asked)) ≢ none
  find_rate_asked d p rate_of r asked same missing =
      let from : is_currency r.from_currency p.currency ≡ true =
        rw (same) (is_currency_same p.currency) in
      let to : is_currency r.to_currency d ≡ true = rw (same) (is_currency_same d) in
      let day : r.date ≡ p.date = ap (λ (x : RateRequest). x.date) same in
      ground (arith, from, to, day, missing)

  -- The rates contain one for every payment in another currency.
  abbrev pub HasRates : Currency → List RateLike → List Payment → Type 0
  HasRates d rates [] = Unit {0}
  HasRates d rates (p ∷ payments) =
      (is_currency p.currency d ≡ false → find_rate d p rates ≢ none) × HasRates d rates payments

  find_rate_later :
      (d : Currency) (p : Payment) (x : RateLike) (rates : List RateLike)
      → find_rate d p rates ≢ none
      → find_rate d p (x ∷ rates) ≢ none
  find_rate_later d p x rates there missing = elim (Bool-cases (is_rate_for d p x)) [
    | inl fits ↦ absurd (ground (arith, fits, missing))
    | inr other ↦ there (rw (other) at missing)
  ]

  pub HasRates-later :
      (d : Currency) (x : RateLike) (rates : List RateLike) (payments : List Payment)
      → HasRates d rates payments
      → HasRates d (x ∷ rates) payments
  HasRates-later d x rates [] h = tt
  HasRates-later d x rates (p ∷ payments) (h, t) =
      (λ other. find_rate_later d p x rates (h other), HasRates-later d x rates payments t)

  required_here :
      (d : Currency) (p : Payment) (payments : List Payment)
      → is_currency p.currency d ≡ true
      → get_required_currency_rates (p ∷ payments) d ≡ get_required_currency_rates payments d
  unfolding get_required_currency_rates
  required_here d p payments here = rw (here, get_required_currency_rates) refl

  required_away :
      (d : Currency) (p : Payment) (payments : List Payment)
      → is_currency p.currency d ≡ false
      → get_required_currency_rates (p ∷ payments) d
        ≡ request_of d p ∷ get_required_currency_rates payments d
  unfolding get_required_currency_rates
  required_away d p payments away = rw (away, get_required_currency_rates) refl

  pub asked-HasRates :
      (d : Currency) (rate_of : RateRequest → DecimalValue) (payments : List Payment)
      → HasRates d (map (answered rate_of) (get_required_currency_rates payments d)) payments
  asked-HasRates d rate_of [] = tt
  asked-HasRates d rate_of (p ∷ payments) =
      let asked = get_required_currency_rates payments d in
      let Has = λ (requests : List RateRequest).
        HasRates d (map (answered rate_of) requests) (p ∷ payments) in
      elim (Bool-cases (is_currency p.currency d)) [
        | inl here ↦
            subst Has (sym (required_here d p payments here))
              (λ other. absurd (cc (here, other)), asked-HasRates d rate_of payments)
        | inr away ↦ subst Has (sym (required_away d p payments away)) (
          λ _. find_rate_asked d p rate_of (request_of d p) asked refl,
          HasRates-later d (answered rate_of (request_of d p)) (map (answered rate_of) asked)
              payments (asked-HasRates d rate_of payments),
        )
      ]

  get_rate-answered :
      (d : Currency) (p : Payment) (rate_of : RateRequest → DecimalValue) (asked : List RateRequest)
      → (is_currency p.currency d ≡ false → find_rate d p (map (answered rate_of) asked) ≢ none)
      → get_rate p (map (answered rate_of) asked) d
        ≡ ok (if is_currency p.currency d then decimals.one else rate_of (request_of d p))
  unfolding get_rate
  get_rate-answered d p rate_of asked there = elim (Bool-cases (is_currency p.currency d)) [
    | inl here ↦ rw (here) refl
    | inr away ↦ elim (Option-cases (find_rate d p (map (answered rate_of) asked))) [
      | inl missing ↦ absurd (there away missing)
      | inr (rate, found) ↦
          rw (away, found) (ap ok (find_rate-answered d p rate_of asked rate found))
    ]
  ]

  pub cost_from-answered :
      (d : Currency) (rate_of : RateRequest → DecimalValue) (asked : List RateRequest)
      (cost : DecimalValue) (payments : List Payment)
      → HasRates d (map (answered rate_of) asked) payments
      → cost_from cost payments (map (answered rate_of) asked) d
        ≡ ok (sum_from cost (map (converted rate_of d) payments))
  unfolding cost_from
  cost_from-answered d rate_of asked cost [] h = refl
  cost_from-answered d rate_of asked cost (p ∷ payments) (h, t) =
      rw (get_rate-answered d p rate_of asked h, cost_from)
        (cost_from-answered d rate_of asked (decimals.add cost (converted rate_of d p)) payments t)

  pub HasRates-cost :
      (d : Currency) (rate_of : RateRequest → DecimalValue) (asked : List RateRequest)
      (payments : List Payment)
      → HasRates d (map (answered rate_of) asked) payments
      → get_cost_in_default_currency payments (map (answered rate_of) asked) d
        ≡ ok (sum_from decimals.zero (map (converted rate_of d) payments))
  unfolding get_cost_in_default_currency
  HasRates-cost d rate_of asked payments h =
      cost_from-answered d rate_of asked decimals.zero payments h

  -- When each of the required rates is answered, whatever the rates are, the cost in the default
  -- currency is found, and is the sum of the payments, in their order, each at the rate that its
  -- request was answered with, or at one if it is in the default currency.
  pub get_cost_in_default_currency_lem :
      (d : Currency) (payments : List Payment) (rate_of : RateRequest → DecimalValue)
      → get_cost_in_default_currency payments
          (map (answered rate_of) (get_required_currency_rates payments d))
          d
        ≡ ok (sum_from decimals.zero (map (converted rate_of d) payments))
  get_cost_in_default_currency_lem d payments rate_of =
      HasRates-cost d rate_of (get_required_currency_rates payments d) payments
        (asked-HasRates d rate_of payments)

  get_rate_missing :
      (d : Currency) (rates : List RateLike) (p : Payment)
      → is_currency p.currency d ≡ false
      → find_rate d p rates ≡ none
      → get_rate p rates d ≡ err internal_server_error
  unfolding get_rate
  get_rate_missing d rates p away missing = rw (away, missing, get_rate) refl

  -- A rate is found, or there is this error.
  get_rate-cases :
      (d : Currency) (rates : List RateLike) (p : Payment)
      → ((rate : DecimalValue) × (get_rate p rates d ≡ ok rate))
        ⊎ (get_rate p rates d ≡ err internal_server_error)
  unfolding get_rate
  get_rate-cases d rates p = elim (Bool-cases (is_currency p.currency d)) [
    | inl here ↦ inl (decimals.one, rw (here, get_rate) refl)
    | inr away ↦ elim (Option-cases (find_rate d p rates)) [
      | inl missing ↦ inr (rw (away, missing, get_rate) refl)
      | inr (rate, found) ↦ inl (rate.rate, rw (away, found, get_rate) refl)
    ]
  ]

  cost_from_missing :
      (d : Currency) (rates : List RateLike) (p : Payment) (after : List Payment)
      → get_rate p rates d ≡ err internal_server_error
      → (cost : DecimalValue) (before : List Payment)
      → cost_from cost (before ++ (p ∷ after)) rates d ≡ err internal_server_error
  unfolding cost_from
  cost_from_missing d rates p after missing cost [] = rw (missing, cost_from) refl
  cost_from_missing d rates p after missing cost (b ∷ before) = elim (get_rate-cases d rates b) [
    | inl (rate, found) ↦
        rw (found, cost_from)
          (cost_from_missing d rates p after missing
            (decimals.add cost (decimals.times b.cost rate)) before)
    | inr none_too ↦ rw (none_too, cost_from) refl
  ]

  -- Without a rate for a payment in another currency there is no cost, but an error.
  pub get_cost_in_default_currency_missing :
      (d : Currency) (rates : List RateLike) (before : List Payment) (p : Payment)
      (after : List Payment)
      → is_currency p.currency d ≡ false
      → find_rate d p rates ≡ none
      → get_cost_in_default_currency (before ++ (p ∷ after)) rates d ≡ err internal_server_error
  unfolding get_cost_in_default_currency
  get_cost_in_default_currency_missing d rates before p after away missing =
      cost_from_missing d rates p after (get_rate_missing d rates p away missing) decimals.zero
        before
