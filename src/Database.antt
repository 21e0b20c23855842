-- ===== src/Database.antt =====
-- The tables of the SQLite database that the deployment ledger and the poll state store write
-- (migrations/, src/deploy/ledger.rs, src/registry/poll_state.rs), as one state.
mod Deployments
mod PollStates
pub mod Trigger
pub mod Status
pub mod Phase
pub mod Outcome
pub use Deployments.*
pub use PollStates.*
use solodock.Base.{List, [], String, Option}
use Deployments.{Uuid, Time, Deployment, DeploymentTransition, DeploymentTrigger, DeploymentStatus}
use PollStates.{PollState, WebhookReplay}

-- The redacted metadata of an audit event: `{}`, or that of a finished deployment.
pub data AuditMetadata : Type 0 where
  empty : AuditMetadata
  deployment : Uuid → DeploymentTrigger → DeploymentStatus → Option String → AuditMetadata

pub record AuditEvent : Type 0 where
  pub actor : String
  pub request_id : Uuid
  pub action : String
  pub target_id : Uuid
  pub outcome : String
  pub metadata : AuditMetadata
  pub created_at : Time

pub record Database : Type 0 where
  pub deployments : List Deployment
  pub transitions : List DeploymentTransition
  pub poll_states : List PollState
  pub replays : List WebhookReplay
  pub audit_events : List AuditEvent

abbrev pub empty_database : Database
empty_database = record {
  deployments = [];
  transitions = [];
  poll_states = [];
  replays = [];
  audit_events = [];
}
