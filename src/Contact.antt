-- ===== src/Contact.antt =====
-- src/contact: invites between users, their contacts, and who has blocked whom.
mod Where
mod Contacts
mod Blocks
mod Invites
mod Validation
mod Mutations
pub mod Guards
pub mod Changes
pub mod Invariant
pub mod Blocking
pub mod Reach
mod Tests
pub use Where.*
unfoldable pub use Contacts.*
unfoldable pub use Blocks.*
unfoldable pub use Invites.*
unfoldable pub use Validation.*
unfoldable pub use Mutations.*
