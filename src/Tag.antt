-- ===== src/Tag.antt =====
-- src/tag and src/item-tag: the tags of a workspace, and which of its items have them.
mod Service
mod Assignment
pub mod Laws
mod Tests
unfoldable pub use Service.*
unfoldable pub use Assignment.*
