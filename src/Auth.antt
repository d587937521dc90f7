-- ===== src/Auth.antt =====
-- src/token and src/auth: signing in, and tokens that are refused once they were given back.
mod Libraries
mod Token
mod Session
pub mod Invalidation
pub mod Refusal
pub mod SignIn
mod Tests
pub use Libraries.*
unfoldable pub use Token.*
unfoldable pub use Session.*
