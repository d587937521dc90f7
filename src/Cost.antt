-- ===== src/Cost.antt =====
-- src/item-cost: what the payments of an item add up to, by currency and in the currency of the
-- workspace.
mod Decimal
mod ByCurrency
mod DefaultCurrency
pub mod Sums
pub mod RateSums
mod Tests
pub use Decimal.*
unfoldable pub use ByCurrency.*
unfoldable pub use DefaultCurrency.*
