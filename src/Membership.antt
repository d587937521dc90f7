-- ===== src/Membership.antt =====
-- src/workspace-membership: who belongs to a workspace and what each member may do there.
mod Where
mod Permissions
mod Validation
mod Members
mod Invites
pub mod Guards
pub mod Rights
pub mod Invariant
pub mod Ids
pub mod Removal
pub mod Acceptance
pub mod Gains
pub mod Grants
pub mod Escalation
pub mod Finality
pub mod Granting
pub mod Reach
pub mod Success
mod Tests
pub use Where.*
unfoldable pub use Permissions.*
unfoldable pub use Validation.*
unfoldable pub use Members.*
unfoldable pub use Invites.*
