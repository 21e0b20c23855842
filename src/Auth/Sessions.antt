-- ===== src/Auth/Sessions.antt =====
-- The sessions: `authenticate`, `logout` and `revoke_all` (src/auth/mod.rs). A token enters as its hash.
use solodock.Base.{
  ℕ, ◌+◌, Bool, ◌||◌, none, some, List, [], String, text_eq, leb, if◌then◌else◌, Result, ok, err,
  is_some,
}
use solodock.Base.Table.{find_where, update_where, delete_where}
use solodock.Database.{Uuid}
use solodock.Auth.Store.{AuthStore, AuthError, Session}
use solodock.Auth.Throttle.{insert_audit}
use solodock.Auth.Credentials.{idle_expiry}

-- `REFRESH_INTERVAL`, in nanoseconds.
abbrev pub refresh_interval : ℕ
refresh_interval = 300000000000

pub record AuthenticatedSession : Type 0 where
  pub id : String
  pub created_at : ℕ
  pub expires_at : ℕ

abbrev pub has_token : String → Session → Bool
has_token token_hash session = text_eq session.token_hash token_hash

abbrev pub has_session_id : String → Session → Bool
has_session_id id session = text_eq session.id id

abbrev pub is_expired : ℕ → Session → Bool
is_expired now session = leb session.idle_expires_at now || leb session.absolute_expires_at now

unfoldable pub refreshed : ℕ → ℕ → Session → Session
refreshed now absolute session = record session {
  last_seen_at = now;
  idle_expires_at = idle_expiry now absolute;
}

-- The sessions after the refresh of one that is valid.
unfoldable pub refresh : ℕ → Session → List Session → List Session
unfolding refreshed
refresh now session sessions =
    if leb (session.last_seen_at + refresh_interval) now
    then update_where (has_session_id session.id) (refreshed now session.absolute_expires_at)
        sessions
    else sessions

-- The checks of a session that is there.
unfoldable pub admit : ℕ → Session → AuthStore → AuthStore × Result AuthError AuthenticatedSession
unfolding refresh
admit now session store =
    if is_expired now session
    then (
      record store { sessions = delete_where (has_session_id session.id) store.sessions },
      err AuthError.session_expired,
    )
    else (
      record store { sessions = refresh now session store.sessions },
      ok (record {
        id = session.id;
        created_at = session.created_at;
        expires_at = session.absolute_expires_at;
      }),
    )

unfoldable pub authenticate :
    String → ℕ → AuthStore → AuthStore × Result AuthError AuthenticatedSession
unfolding admit
authenticate token_hash now store =
    if is_some store.password_hash
    then elim (find_where (has_token token_hash) store.sessions) [
      | none ↦ (store, err AuthError.session_required)
      | some session ↦ admit now session store
    ]
    else (store, err AuthError.setup_required)

unfoldable pub logout : String → Uuid → ℕ → AuthStore → AuthStore
unfolding insert_audit
logout token_hash request_id now store =
    insert_audit "admin" request_id "auth.logout" "success" none now
      (record store { sessions = delete_where (has_token token_hash) store.sessions })

unfoldable pub revoke_all : Uuid → ℕ → AuthStore → AuthStore
unfolding insert_audit
revoke_all request_id now store =
    insert_audit "admin" request_id "auth.revoke_all" "success" none now
      (record store { sessions = [] })
