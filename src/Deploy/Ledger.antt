-- ===== src/Deploy/Ledger.antt =====
-- DeploymentLedger (src/deploy/ledger.rs): the life of a deployment in the database. Failures of SQLite
-- itself are left out.
mod Rows
mod Transactions
mod Journal
mod Calls
pub mod Change
pub mod Finality
pub mod Extends
pub mod Audit
pub mod Moved
pub mod Branches
pub mod Numbering
pub mod Effects
pub mod Uniqueness
unfoldable pub use Rows.*
unfoldable pub use Transactions.*
unfoldable pub use Journal.*
unfoldable pub use Calls.*
