-- ===== src/History.antt =====
-- The history of a workspace: src/workspace-history. A service emits an event; the listener that is
-- registered for it (workspace-history-event-listener.service.ts) hands its parts to the history
-- service, which stores one row.
mod Tests
mod Events
mod Service
mod Listener
pub mod Emitter
pub mod Laws
pub use Events.*
pub use Service.*
pub use Listener.*
