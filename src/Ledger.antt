-- ===== src/Ledger.antt =====
-- The items, payments and tags of the workspaces together: what every mutation of src/item,
-- src/item-merge, src/item-extract, src/payment, src/tag and src/item-tag keeps of their tables.
mod Places
mod References
mod Listed
pub mod Invariant
mod Rows
mod Effects
mod Extraction
mod Mutations
mod TagMutations
pub mod Reach
mod Tests
unfoldable pub use Places.*
unfoldable pub use References.*
