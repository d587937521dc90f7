-- ===== src/Payment.antt =====
-- src/payment: what was paid for an item, by a member of its workspace.
mod Service
mod Filter
mod Queries
pub mod Laws
mod Tests
unfoldable pub use Service.*
unfoldable pub use Filter.*
unfoldable pub use Queries.*
