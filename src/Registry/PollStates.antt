-- ===== src/Registry/PollStates.antt =====
-- PollStateStore (src/registry/poll_state.rs): the durable state of the registry poller and of the
-- webhook wakes. Each method is one SQL transaction over the tables `poll_states`, `webhook_replays`
-- and `audit_events`; failures of SQLite itself are left out.
mod Rows
mod Store
mod Webhooks
mod Calls
pub mod Invariant
pub mod Replay
pub mod Wake
pub mod Generation
unfoldable pub use Rows.*
unfoldable pub use Store.*
unfoldable pub use Webhooks.*
unfoldable pub use Calls.*
