-- ===== src/Rate.antt =====
-- src/currency-rate: the rates of the national bank, kept in a table once they were pulled, and
-- the costs that src/payments-aggregation computes with them.
mod Bank
mod Service
mod Aggregation
mod Saved
mod Days
mod Fresh
mod Populated
pub mod Quotes
pub mod Again
pub mod Itself
pub mod Costs
mod Tests
pub use Bank.*
unfoldable pub use Service.*
unfoldable pub use Aggregation.*
