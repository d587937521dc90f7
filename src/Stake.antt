-- ===== src/Stake.antt =====
-- src/item-stake: which share of the cost of an item each member bears, by a rule or by a value for
-- each member.
mod Numbers
mod Service
mod Override
pub mod Validation
mod Upserts
pub mod Rules
mod Tests
pub use Numbers.*
unfoldable pub use Service.*
unfoldable pub use Override.*
