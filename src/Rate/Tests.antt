-- ===== src/Rate/Tests.antt =====
-- Runs of src/currency-rate, with a client that keeps lists, whole numbers for decimals and a bank
-- that answers three.
use cost_x.Base.{ℕ, ◌≡◌, ◌+◌, ◌*◌, refl, arith, count, false, none, some, List, [], ◌∷◌}
use cost_x.Prisma.Client.{in_memory}
use cost_x.Schema.{byn, usd, Payment, DecimalValue, Db, empty}
use cost_x.Transaction.{ok}
use cost_x.Delegate.{create}
use cost_x.Group.{Dict, get, set}
use cost_x.Cost.{Decimals, RateRequest, RateLike, get_required_currency_rates}
use cost_x.Rate.Bank.{Bank, pull_currency_rate}
use cost_x.Rate.Service.{
  is_rate_of, pull_and_save, start_find_or_pull, found_or_pull, get_rate_of, get_derivative_map,
  pull_missing, populate_derivative_map, answer_all, get_many,
}
use cost_x.Rate.Aggregation.{flat_values}
use cost_x.Rate.Saved.{IsSingle}
use cost_x.Rate.Quotes.{AreQuotes, get_many-AreQuotes}
use cost_x.Rate.Again.{get_rate_of_again}
use cost_x.Rate.Itself.{get_rate_of_itself}

abbrev whole_of : ℕ → DecimalValue
whole_of n = record { negative = false; digits = n; scale = 0 }

instance abbrev whole : Decimals
whole = record {
  zero = whole_of 0;
  one = whole_of 1;
  add = λ a b. whole_of (a.digits + b.digits);
  times = λ a b. whole_of (a.digits * b.digits);
  div = λ a b. whole_of (a.digits * b.digits);
}

instance abbrev steady : Bank
steady = record { official_rate = λ currency date. some (whole_of 3) }

abbrev silent : Bank
silent = record { official_rate = λ currency date. none }

abbrev dollars : RateRequest
dollars = record { from_currency = usd; to_currency = byn; date = 5 }

abbrev saved : Db
saved = record empty {
  currency_rates =
      record { id = 1; date = 5; rate = whole_of 3; from_currency = usd; to_currency = byn } ∷ [];
}

first_run : get_rate_of dollars empty ≡ ok (whole_of 3, saved)
unfolding get_rate_of start_find_or_pull found_or_pull pull_and_save pull_currency_rate create
first_run = refl

empty-IsSingle : IsSingle empty
unfolding count
empty-IsSingle c date = ground arith

get_rate_of_again_example :
    IsSingle saved × (get_rate_of ⦃bank = silent⦄ dollars saved ≡ ok (whole_of 3, saved))
get_rate_of_again_example = get_rate_of_again silent dollars empty refl empty-IsSingle first_run

get_rate_of_itself_example :
    (db' : Db) × (get_rate_of (record { from_currency = usd; to_currency = usd; date = 5 }) empty
      ≡ ok (whole_of 9, db'))
    × (count (is_rate_of usd 5) db'.currency_rates ≡ 2)
unfolding count pull_currency_rate
get_rate_of_itself_example = get_rate_of_itself usd 5 (whole_of 3) empty refl refl refl

abbrev bills : Dict (List Payment)
bills =
    (
      2,
      record {
        id = 1;
        cost = whole_of 5;
        item_id = 2;
        date = 5;
        title = none;
        currency = usd;
        payer_id = 7;
      }
          ∷ [],
    )
    ∷ []

abbrev rates : List RateLike
rates = record { from_currency = usd; to_currency = byn; date = 5; rate = whole_of 3 } ∷ []

many_run : get_many (get_required_currency_rates (flat_values bills) byn) empty ≡ ok (rates, saved)
unfolding get_many get_required_currency_rates populate_derivative_map get_derivative_map
    pull_missing pull_and_save pull_currency_rate answer_all create get set
many_run = refl

get_many-AreQuotes_example :
    IsSingle saved × AreQuotes (get_required_currency_rates (flat_values bills) byn) rates saved
get_many-AreQuotes_example =
    get_many-AreQuotes (get_required_currency_rates (flat_values bills) byn) empty empty-IsSingle
      many_run
