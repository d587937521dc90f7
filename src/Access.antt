-- ===== src/Access.antt =====
-- src/access: who may call a resolver.
mod Rules
mod Strategies
mod Engine
pub mod Meaning
pub mod Decision
pub mod Totality
pub mod Policy
mod Tests
pub use Rules.*
unfoldable pub use Strategies.*
unfoldable pub use Engine.*
