-- ===== src/Mutation/Idempotency.antt =====
-- IdempotencyService (src/mutation/idempotency.rs): one operation for each key of a client. Failures of
-- SQLite itself are left out.
mod Rows
mod Operations
mod Effects
mod Calls
mod Gc
mod Scheduling
pub mod Queueing
mod Recovery
pub mod Responses
pub mod Proofs
pub mod Collection
pub mod Slot
pub mod Views
pub mod Tables
pub mod Refinement
pub mod Grants
pub mod Deletion
pub mod Queued
pub mod Change
pub mod Invariant
pub mod Answers
pub mod Markers
unfoldable pub use Rows.*
unfoldable pub use Operations.*
unfoldable pub use Effects.*
unfoldable pub use Calls.*
unfoldable pub use Gc.*
unfoldable pub use Scheduling.*
unfoldable pub use Recovery.*
