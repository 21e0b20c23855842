-- ===== src/Database/Outcome.antt =====
-- The text of `PollOutcome` in the database (src/registry/poll_state.rs).
use solodock.Base.{String, ◌≡◌, refl, text_eq, if◌then◌else◌, Result, ok, err}
use solodock.Database.PollStates.{PollOutcome, PollStateError}

unfoldable pub as_str : PollOutcome → String
as_str PollOutcome.disabled = "disabled"
as_str PollOutcome.scheduled = "scheduled"
as_str PollOutcome.unchanged = "unchanged"
as_str PollOutcome.config_pending_manual = "config_pending_manual"
as_str PollOutcome.busy_skipped = "busy_skipped"
as_str PollOutcome.blocked_drift = "blocked_drift"
as_str PollOutcome.blocked_attention = "blocked_attention"
as_str PollOutcome.suppressed_failed_target = "suppressed_failed_target"
as_str PollOutcome.registry_error = "registry_error"
as_str PollOutcome.credential_error = "credential_error"
as_str PollOutcome.invalid_source = "invalid_source"
as_str PollOutcome.cancelled = "cancelled"

unfoldable pub parse : String → Result PollStateError PollOutcome
parse value =
    if text_eq value "disabled"
    then ok PollOutcome.disabled
    else if text_eq value "scheduled"
    then ok PollOutcome.scheduled
    else if text_eq value "unchanged"
    then ok PollOutcome.unchanged
    else if text_eq value "config_pending_manual"
    then ok PollOutcome.config_pending_manual
    else if text_eq value "busy_skipped"
    then ok PollOutcome.busy_skipped
    else if text_eq value "blocked_drift"
    then ok PollOutcome.blocked_drift
    else if text_eq value "blocked_attention"
    then ok PollOutcome.blocked_attention
    else if text_eq value "suppressed_failed_target"
    then ok PollOutcome.suppressed_failed_target
    else if text_eq value "registry_error"
    then ok PollOutcome.registry_error
    else if text_eq value "credential_error"
    then ok PollOutcome.credential_error
    else if text_eq value "invalid_source"
    then ok PollOutcome.invalid_source
    else if text_eq value "cancelled"
    then ok PollOutcome.cancelled
    else err PollStateError.corrupt

-- What is written is read back.
pub parse-as_str : (v : PollOutcome) → parse (as_str v) ≡ ok v
unfolding parse as_str
parse-as_str PollOutcome.disabled = refl
parse-as_str PollOutcome.scheduled = refl
parse-as_str PollOutcome.unchanged = refl
parse-as_str PollOutcome.config_pending_manual = refl
parse-as_str PollOutcome.busy_skipped = refl
parse-as_str PollOutcome.blocked_drift = refl
parse-as_str PollOutcome.blocked_attention = refl
parse-as_str PollOutcome.suppressed_failed_target = refl
parse-as_str PollOutcome.registry_error = refl
parse-as_str PollOutcome.credential_error = refl
parse-as_str PollOutcome.invalid_source = refl
parse-as_str PollOutcome.cancelled = refl
