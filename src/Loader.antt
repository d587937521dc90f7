-- ===== src/Loader.antt =====
-- The data loaders of the field resolvers (src/*/dataloader): one query for a batch of keys, and
-- the answers in the order of the keys.
mod Loaders
pub mod Answers
pub mod Batches
mod Tests
unfoldable pub use Loaders.*
