-- ===== src/Database/PollStates.antt =====
-- The rows of `poll_states` and `webhook_replays` (src/registry/poll_state.rs).
use solodock.Base.{ℕ, String, Option, Bool, List}
use solodock.Database.Deployments.{Uuid, Time}

pub data PollOutcome : Type 0 where
  disabled scheduled unchanged config_pending_manual busy_skipped blocked_drift : PollOutcome
  blocked_attention suppressed_failed_target registry_error credential_error : PollOutcome
  invalid_source cancelled : PollOutcome

pub data PollStateError : Type 0 where
  invalid corrupt : PollStateError

pub record PollState : Type 0 where
  pub app_id : Uuid
  pub generation : String
  pub enabled : Bool
  pub consecutive_transient_failures : ℕ
  pub next_check_not_before : Option Time
  pub last_checked_at : Option Time
  pub last_success_at : Option Time
  pub last_source_descriptor_digest : Option String
  pub last_etag : Option String
  pub last_manifest_digest : Option String
  pub last_platform : Option String
  pub last_outcome : PollOutcome
  pub last_error_class : Option String
  pub last_error_code : Option String
  pub suppressed_target_key : Option String
  pub suppressed_deployment_id : Option Uuid
  pub webhook_sequence : ℕ
  pub webhook_processed_sequence : ℕ
  pub last_webhook_received_at : Option Time
  pub last_wake_source : Option String
  pub updated_at : Time

pub record WebhookReplay : Type 0 where
  pub app_id : Uuid
  pub secret_revision : Uuid
  pub nonce_sha256 : List ℕ
  pub received_at : Time
  pub expires_at : Time
  pub request_id : Uuid
