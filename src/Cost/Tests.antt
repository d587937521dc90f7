-- ===== src/Cost/Tests.antt =====
-- Runs of src/item-cost, with whole numbers for decimals.
use cost_x.Base.{ℕ, ◌≡◌, ◌+◌, ◌*◌, false, none, List, [], ◌∷◌, map}
use cost_x.Schema.{byn, usd, Payment, DecimalValue}
use cost_x.Transaction.{ok}
use cost_x.Cost.Decimal.{Decimals}
use cost_x.Cost.ByCurrency.{cost_in, get_cost_by_currency}
use cost_x.Cost.DefaultCurrency.{
  RateRequest, get_required_currency_rates, get_cost_in_default_currency,
}
use cost_x.Cost.Sums.{sum_from, costs_in, get_cost_by_currency_lem}
use cost_x.Cost.RateSums.{answered, converted, get_cost_in_default_currency_lem}

abbrev whole_of : ℕ → DecimalValue
whole_of n = record { negative = false; digits = n; scale = 0 }

instance abbrev pub whole : Decimals
whole = record {
  zero = whole_of 0;
  one = whole_of 1;
  add = λ a b. whole_of (a.digits + b.digits);
  times = λ a b. whole_of (a.digits * b.digits);
  div = λ a b. whole_of (a.digits * b.digits);
}

abbrev paid : Payment
paid = record {
  id = 1;
  cost = whole_of 5;
  item_id = 2;
  date = 3;
  title = none;
  currency = usd;
  payer_id = 7;
}

abbrev bills : List Payment
bills = paid ∷ record paid { id = 2; currency = byn } ∷ record paid { id = 3 } ∷ []

abbrev three : RateRequest → DecimalValue
three r = whole_of 3

get_cost_by_currency_lem_example :
    cost_in usd (get_cost_by_currency bills) ≡ sum_from (whole_of 0) (costs_in usd bills)
get_cost_by_currency_lem_example = get_cost_by_currency_lem usd bills

get_cost_in_default_currency_lem_example :
    get_cost_in_default_currency bills
      (map (answered three) (get_required_currency_rates bills byn))
      byn
    ≡ ok (sum_from (whole_of 0) (map (converted three byn) bills))
get_cost_in_default_currency_lem_example = get_cost_in_default_currency_lem byn bills three
