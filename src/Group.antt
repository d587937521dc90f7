-- ===== src/Group.antt =====
-- src/group/group.service.ts: rows by the number in one of their columns.
mod Entries
mod Service
pub mod Laws
mod Tests
unfoldable pub use Entries.*
unfoldable pub use Service.*
