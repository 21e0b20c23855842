-- ===== src/Auth/Credentials.antt =====
-- `login`, `change_password` and the sessions (src/auth/mod.rs, src/auth/session.rs). The hashing of passwords
-- is third-party code and a parameter; the generated tokens, their hashes and the id of a session enter
-- as arguments.
use solodock.Base.{
  ℕ, ◌+◌, Bool, ◌&&◌, none, some, [], ◌∷◌, ◌++◌, String, text_eq, min, if◌then◌else◌, Result, ok,
  err,
}
use solodock.Database.{Uuid}
use solodock.Auth.Store.{AuthStore, AuthError, CredentialAttempt, no_throttle}
use solodock.Auth.Throttle.{ensure_not_throttled, record_credential_failure, insert_audit}

-- `ABSOLUTE_TTL` and `IDLE_TTL`, in nanoseconds.
abbrev pub absolute_ttl : ℕ
absolute_ttl = 43200000000000

abbrev pub idle_ttl : ℕ
idle_ttl = 3600000000000

abbrev pub idle_expiry : ℕ → ℕ → ℕ
idle_expiry now absolute_expiry = min (now + idle_ttl) absolute_expiry

-- `verify` and `hash` of the password service; its own failures, which leave the store as it is, are
-- left out.
pub record PasswordService : Type 0 where
  pub verify : String → String → Bool
  pub hash : String → String

pub record LoginSession : Type 0 where
  pub session_token : String
  pub csrf_token : String
  pub created_at : ℕ
  pub expires_at : ℕ

-- The generated values of one login: the tokens, the hash of the session token, and the id.
pub record Generated : Type 0 where
  pub session_token : String
  pub csrf_token : String
  pub token_hash : String
  pub id : String

-- What a login commits for a valid password.
unfoldable pub open_session : Generated → Uuid → ℕ → AuthStore → AuthStore
unfolding insert_audit
open_session generated request_id now store =
    insert_audit "admin" request_id "auth.login" "success" none now (record store {
      sessions =
          store.sessions
          ++ record {
            id = generated.id;
            token_hash = generated.token_hash;
            created_at = now;
            last_seen_at = now;
            idle_expires_at = idle_expiry now (now + absolute_ttl);
            absolute_expires_at = now + absolute_ttl;
          }
            ∷ [];
      throttle = no_throttle;
    })

-- What a change of the password commits.
unfoldable pub replace_password : String → Uuid → ℕ → AuthStore → AuthStore
unfolding insert_audit
replace_password new_hash request_id now store =
    insert_audit "admin" request_id "auth.password_change" "success" none now
      (record store { password_hash = some new_hash; sessions = []; throttle = no_throttle })

module _ (password : PasswordService) where
  -- The check of a password that is not throttled.
  unfoldable pub check_login :
      String → String → Generated → Uuid → ℕ → AuthStore → AuthStore × Result AuthError LoginSession
  check_login username given generated request_id now store = elim store.password_hash [
    | none ↦ (store, err AuthError.setup_required)
    | some hash ↦
        if text_eq username "admin" && password.verify given hash
        then (
          open_session generated request_id now store,
          ok (record {
            session_token = generated.session_token;
            csrf_token = generated.csrf_token;
            created_at = now;
            expires_at = now + absolute_ttl;
          }),
        )
        else (
          record_credential_failure request_id now CredentialAttempt.login_attempt store,
          err AuthError.invalid_credentials,
        )
  ]

  unfoldable pub login :
      String → String → Generated → Uuid → ℕ → AuthStore → AuthStore × Result AuthError LoginSession
  login username given generated request_id now store =
      let (next, allowed) =
        ensure_not_throttled now request_id CredentialAttempt.login_attempt store in
      elim allowed [
        | err error ↦ (next, err error)
        | ok u ↦ check_login username given generated request_id now next
      ]

  unfoldable pub check_change :
      String → String → Uuid → ℕ → AuthStore → AuthStore × Result AuthError (Unit {0})
  check_change current new_password request_id now store = elim store.password_hash [
    | none ↦ (store, err AuthError.setup_required)
    | some hash ↦
        if password.verify current hash
        then (replace_password (password.hash new_password) request_id now store, ok tt)
        else (
          record_credential_failure request_id now CredentialAttempt.password_change store,
          err AuthError.current_password_invalid,
        )
  ]

  unfoldable pub change_password :
      String → String → Uuid → ℕ → AuthStore → AuthStore × Result AuthError (Unit {0})
  change_password current new_password request_id now store =
      let (next, allowed) =
        ensure_not_throttled now request_id CredentialAttempt.password_change store in
      elim allowed [
        | err error ↦ (next, err error)
        | ok u ↦ check_change current new_password request_id now next
      ]
