-- ===== src/Item.antt =====
-- src/item, src/item-merge and src/item-extract, with the relations of src/consistency that they
-- ask for.
mod Consistency
mod Merge
mod Extract
mod Service
pub mod Merged
pub mod Extracted
mod Tests
unfoldable pub use Consistency.*
unfoldable pub use Merge.*
unfoldable pub use Extract.*
unfoldable pub use Service.*
