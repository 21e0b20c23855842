-- ===== src/Auth/Throttle.antt =====
-- The throttle of failed attempts (src/auth/mod.rs). A call returns the store that it commits and its
-- answer: a refusal commits its audit event.
use solodock.Base.{
  ℕ, suc, ◌+◌, ◌-◌, ◌/◌, max, Bool, false, Option, none, some, [], ◌∷◌, ◌++◌, ltb, leb, String,
  if◌then◌else◌, Result, ok, err,
}
use solodock.Database.{Uuid}
use solodock.Auth.Store.{
  AuthStore, AuthThrottle, AuthError, CredentialAttempt, actor_of, action_of, invalid_reason,
}

-- `Duration::minutes(15)`.
abbrev pub throttle_window : ℕ
throttle_window = 900000000000

abbrev pub throttle_limit : ℕ
throttle_limit = 5

abbrev pub throttle_cooldown : ℕ
throttle_cooldown = 900000000000

unfoldable pub insert_audit :
    String → Uuid → String → String → Option String → ℕ → AuthStore → AuthStore
insert_audit actor request_id action outcome reason now store = record store {
  audit_events =
      store.audit_events
      ++ record {
        actor = actor;
        request_id = request_id;
        action = action;
        outcome = outcome;
        reason = reason;
        created_at = now;
      }
        ∷ [];
}

-- The end of the cooldown, where it lies ahead.
unfoldable pub blocked_at : ℕ → AuthThrottle → Option ℕ
blocked_at now throttle = elim throttle.blocked_until [
  | none ↦ none
  | some until ↦ if ltb now until then some until else none
]

unfoldable pub ensure_not_throttled :
    ℕ → Uuid → CredentialAttempt → AuthStore → AuthStore × Result AuthError (Unit {0})
unfolding blocked_at insert_audit
ensure_not_throttled now request_id attempt store = elim (blocked_at now store.throttle) [
  | none ↦ (store, ok tt)
  | some until ↦ (
    insert_audit (actor_of attempt) request_id (action_of attempt) "failure" (some "AUTH_COOLDOWN")
        now store,
    err (AuthError.cooldown (max ((until - now) / 1000000000) 1)),
  )
]

-- `now - started < THROTTLE_WINDOW`, on signed durations.
abbrev pub within_window : ℕ → Option ℕ → Bool
within_window now none = false
within_window now (some started) = ltb now (started + throttle_window)

-- The row after a failed attempt.
unfoldable pub failed_throttle : ℕ → AuthThrottle → AuthThrottle
failed_throttle now throttle =
    let within = within_window now throttle.window_started_at in
    let failure_count = if within then suc throttle.failure_count else 1 in
    record {
      window_started_at = if within then throttle.window_started_at else some now;
      failure_count = failure_count;
      blocked_until =
          if leb throttle_limit failure_count then some (now + throttle_cooldown) else none;
    }

unfoldable pub record_credential_failure : Uuid → ℕ → CredentialAttempt → AuthStore → AuthStore
unfolding failed_throttle insert_audit
record_credential_failure request_id now attempt store =
    insert_audit (actor_of attempt) request_id (action_of attempt) "failure"
      (some (invalid_reason attempt)) now
      (record store { throttle = failed_throttle now store.throttle })
