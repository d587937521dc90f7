-- ===== src/Cost/Decimal.antt =====
-- `Decimal` of Prisma: the constants and the calls that src/item-cost and src/currency-rate make.
-- It rounds to a precision, so nothing is asked of it but that it computes a value.
use cost_x.Schema.{DecimalValue}

pub record Decimals : Type 0 where
  pub zero : DecimalValue
  pub one : DecimalValue
  pub add : DecimalValue → DecimalValue → DecimalValue
  pub times : DecimalValue → DecimalValue → DecimalValue
  pub div : DecimalValue → DecimalValue → DecimalValue
