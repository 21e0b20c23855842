-- ===== src/Auth/Store.antt =====
-- The rows that the credential operations read and write (src/auth/mod.rs). Instants are nanoseconds:
-- `parse_time` reads back what `format_time` has written.
use solodock.Base.{ℕ, String, Option, List, none}
use solodock.Database.{Uuid}

pub record Session : Type 0 where
  pub id : String
  pub token_hash : String
  pub created_at : ℕ
  pub last_seen_at : ℕ
  pub idle_expires_at : ℕ
  pub absolute_expires_at : ℕ

-- The row `auth_throttle`.
pub record AuthThrottle : Type 0 where
  pub window_started_at : Option ℕ
  pub failure_count : ℕ
  pub blocked_until : Option ℕ

-- A row of `audit_events`, with the reason of its metadata.
pub record AuthEvent : Type 0 where
  pub actor : String
  pub request_id : Uuid
  pub action : String
  pub outcome : String
  pub reason : Option String
  pub created_at : ℕ

pub record AuthStore : Type 0 where
  pub password_hash : Option String
  pub sessions : List Session
  pub throttle : AuthThrottle
  pub audit_events : List AuthEvent

pub data AuthError : Type 0 where
  setup_required invalid_credentials current_password_invalid : AuthError
  session_required session_expired : AuthError
  cooldown : ℕ → AuthError

pub data CredentialAttempt : Type 0 where
  login_attempt password_change : CredentialAttempt

abbrev pub actor_of : CredentialAttempt → String
actor_of CredentialAttempt.login_attempt = "anonymous"
actor_of CredentialAttempt.password_change = "admin"

abbrev pub action_of : CredentialAttempt → String
action_of CredentialAttempt.login_attempt = "auth.login"
action_of CredentialAttempt.password_change = "auth.password_change"

abbrev pub invalid_reason : CredentialAttempt → String
invalid_reason CredentialAttempt.login_attempt = "AUTH_INVALID"
invalid_reason CredentialAttempt.password_change = "CURRENT_PASSWORD_INVALID"

abbrev pub no_throttle : AuthThrottle
no_throttle = record { window_started_at = none; failure_count = 0; blocked_until = none }
