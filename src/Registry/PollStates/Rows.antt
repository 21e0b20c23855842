-- ===== src/Registry/PollStates/Rows.antt =====
-- The rows that the statements of the poll state store select, insert and set
-- (src/registry/poll_state.rs).
use solodock.Base.{
  ℕ, ◌+◌, Bool, true, false, not, ◌&&◌, ◌||◌, Option, none, some, List, [], ◌∷◌, ◌++◌, ltb, ◌==◌,
  if◌then◌else◌, option_eq, coalesce, String, min, max, text_eq,
}
use solodock.Base.Table.{update_where, count_where}
use solodock.Database.{Uuid, Time, PollState, PollOutcome}

pub record PollObservation : Type 0 where
  pub generation : String
  pub enabled : Bool
  pub next_check_not_before : Option Time
  pub checked_at : Option Time
  pub success : Bool
  pub replace_observed_fields : Bool
  pub source_descriptor_digest : Option String
  pub etag : Option String
  pub manifest_digest : Option String
  pub platform : Option String
  pub outcome : PollOutcome
  pub error_class : Option String
  pub error_code : Option String
  pub transient_failures : ℕ

-- `WHERE app_id=?`.
abbrev pub of_app : Uuid → PollState → Bool
of_app app state = state.app_id == app

-- `WHERE app_id=? AND generation=?`.
unfoldable pub of_generation : Uuid → String → PollState → Bool
of_generation app generation state = state.app_id == app && text_eq state.generation generation

-- A row with the defaults of the table: an insert names some of the columns.
unfoldable pub blank_state : Uuid → String → Time → PollState
blank_state app generation now = record {
  app_id = app;
  generation = generation;
  enabled = true;
  consecutive_transient_failures = 0;
  next_check_not_before = none;
  last_checked_at = none;
  last_success_at = none;
  last_source_descriptor_digest = none;
  last_etag = none;
  last_manifest_digest = none;
  last_platform = none;
  last_outcome = PollOutcome.scheduled;
  last_error_class = none;
  last_error_code = none;
  suppressed_target_key = none;
  suppressed_deployment_id = none;
  webhook_sequence = 0;
  webhook_processed_sequence = 0;
  last_webhook_received_at = none;
  last_wake_source = none;
  updated_at = now;
}

-- `INSERT … ON CONFLICT(app_id) DO UPDATE`.
unfoldable pub upsert : Uuid → PollState → (PollState → PollState) → List PollState → List PollState
upsert app fresh merge states =
    if count_where (of_app app) states == 0
    then states ++ fresh ∷ []
    else update_where (of_app app) merge states

-- The row that `publish` inserts.
unfoldable pub published : Uuid → PollObservation → Time → PollState
unfolding blank_state
published app value now = record (blank_state app value.generation now) {
  enabled = value.enabled;
  consecutive_transient_failures = value.transient_failures;
  next_check_not_before = value.next_check_not_before;
  last_checked_at = value.checked_at;
  last_success_at = if value.success then value.checked_at else none;
  last_source_descriptor_digest = value.source_descriptor_digest;
  last_etag = value.etag;
  last_manifest_digest = value.manifest_digest;
  last_platform = value.platform;
  last_outcome = value.outcome;
  last_error_class = value.error_class;
  last_error_code = value.error_code;
}

-- `CASE WHEN generation<>excluded.generation OR replace THEN new ELSE COALESCE(new, old) END`.
abbrev pub observed_field : Bool → Option String → Option String → Option String
observed_field replace new old = if replace then new else coalesce new old

-- `CASE WHEN kept THEN old ELSE NULL END`.
abbrev pub kept_if {ℓ} : {A : Type ℓ} → Bool → Option A → Option A
kept_if kept old = if kept then old else none

-- What `publish` makes of a row that is there.
unfoldable pub republished : PollObservation → Time → PollState → PollState
republished value now old =
    let same_generation = text_eq old.generation value.generation in
    let replace = not same_generation || value.replace_observed_fields in
    record old {
      generation = value.generation;
      enabled = value.enabled;
      consecutive_transient_failures = value.transient_failures;
      next_check_not_before = value.next_check_not_before;
      last_checked_at = coalesce value.checked_at old.last_checked_at;
      last_success_at =
          if value.success
          then coalesce value.checked_at old.last_success_at
          else old.last_success_at;
      last_source_descriptor_digest =
          observed_field replace value.source_descriptor_digest old.last_source_descriptor_digest;
      last_etag = observed_field replace value.etag old.last_etag;
      last_manifest_digest = observed_field replace value.manifest_digest old.last_manifest_digest;
      last_platform = observed_field replace value.platform old.last_platform;
      last_outcome = value.outcome;
      last_error_class = value.error_class;
      last_error_code = value.error_code;
      suppressed_target_key = kept_if same_generation old.suppressed_target_key;
      suppressed_deployment_id = kept_if same_generation old.suppressed_deployment_id;
      updated_at = now;
    }

-- What `try_initialize_generation` makes of a row that still has the observed generation.
unfoldable pub initialized : String → Time → Time → PollState → PollState
initialized generation due now old = record old {
  generation = generation;
  enabled = true;
  consecutive_transient_failures = 0;
  next_check_not_before = some due;
  last_checked_at = none;
  last_success_at = none;
  last_source_descriptor_digest = none;
  last_etag = none;
  last_manifest_digest = none;
  last_platform = none;
  last_outcome = PollOutcome.scheduled;
  last_error_class = none;
  last_error_code = none;
  suppressed_target_key = none;
  suppressed_deployment_id = none;
  updated_at = now;
}

unfoldable pub suppressed : String → Uuid → Time → PollState → PollState
suppressed target deployment now old = record old {
  suppressed_target_key = some target;
  suppressed_deployment_id = some deployment;
  last_outcome = PollOutcome.suppressed_failed_target;
  updated_at = now;
}

unfoldable pub has_suppressed : Uuid → String → PollState → Bool
has_suppressed app target state =
    state.app_id == app && option_eq text_eq state.suppressed_target_key (some target)

unfoldable pub unsuppressed : Time → PollState → PollState
unsuppressed now old = record old {
  suppressed_target_key = none;
  suppressed_deployment_id = none;
  updated_at = now;
}

-- The row that a webhook inserts, and what it makes of a row that is there.
unfoldable pub woken : Uuid → String → Time → PollState
unfolding blank_state
woken app generation now = record (blank_state app generation now) {
  webhook_sequence = 1;
  last_webhook_received_at = some now;
  last_wake_source = some "webhook";
}

unfoldable pub rewoken : String → Time → PollState → PollState
rewoken generation now old =
    let kept = text_eq old.generation generation in
    record old {
      generation = generation;
      enabled = true;
      consecutive_transient_failures = if kept then old.consecutive_transient_failures else 0;
      next_check_not_before = kept_if kept old.next_check_not_before;
      last_checked_at = kept_if kept old.last_checked_at;
      last_success_at = kept_if kept old.last_success_at;
      last_source_descriptor_digest = kept_if kept old.last_source_descriptor_digest;
      last_etag = kept_if kept old.last_etag;
      last_manifest_digest = kept_if kept old.last_manifest_digest;
      last_platform = kept_if kept old.last_platform;
      last_outcome = if kept then old.last_outcome else PollOutcome.scheduled;
      last_error_class = kept_if kept old.last_error_class;
      last_error_code = kept_if kept old.last_error_code;
      suppressed_target_key = kept_if kept old.suppressed_target_key;
      suppressed_deployment_id = kept_if kept old.suppressed_deployment_id;
      webhook_sequence = old.webhook_sequence + 1;
      last_webhook_received_at = some now;
      last_wake_source = some "webhook";
      updated_at = now;
    }

-- What `mark_webhook_processed` makes of a row.
unfoldable pub processed : ℕ → Time → PollState → PollState
processed captured now old = record old {
  webhook_processed_sequence =
      min old.webhook_sequence (max old.webhook_processed_sequence captured);
  last_wake_source =
      if ltb captured old.webhook_sequence then some "webhook" else old.last_wake_source;
  updated_at = now;
}

abbrev pub is_failure : PollOutcome → Bool
is_failure PollOutcome.registry_error = true
is_failure PollOutcome.credential_error = true
is_failure PollOutcome.invalid_source = true
is_failure _ = false
