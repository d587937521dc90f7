-- ===== src/Stake/Numbers.antt =====
-- What src/item-stake takes from elsewhere: `+` on the numbers of JavaScript, which rounds, and
-- `diff` of radash. A finite number is a decimal fraction.
use cost_x.Base.{ℕ, ◌≡◌, ◌==◌, Bool, not, ◌&&◌, ◌||◌, List}
use cost_x.Schema.{DecimalValue}
use cost_x.Loader.{has_key}

pub record Numbers : Type 0 where
  pub plus : DecimalValue → DecimalValue → DecimalValue

-- `value < 0`
abbrev pub is_negative : DecimalValue → Bool
is_negative x = x.negative && not (x.digits == 0)

-- `value <= 0`
abbrev pub is_non_positive : DecimalValue → Bool
is_non_positive x = x.negative || x.digits == 0

pub record Radash : Type 0 where
  -- `diff(root, other)`: the entries of the first list that are not in the second
  pub diff : List ℕ → List ℕ → List ℕ
  pub has_key-diff :
      (root other : List ℕ) (k : ℕ)
      → has_key (diff root other) k ≡ (has_key root k && not (has_key other k))
