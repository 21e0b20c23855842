-- ===== src/Auth/Expiry.antt =====
-- Which sessions are admitted, and for how long (src/auth/mod.rs, src/auth/session.rs).
use solodock.Base.{
  ℕ, ◌+◌, ◌≤◌, ◌<◌, ◌≡◌, ◌∙◌, sym, ap, inl, inr, Bool, Option, none, some, List, [], ◌∷◌, String,
  Option-cases, Bool-cases, Result, ok, err, All, arith, is_some,
}
use solodock.Base.Table.{find_where}
use solodock.Auth.Store.{AuthStore, AuthError, Session}
use solodock.Auth.Credentials.{absolute_ttl, idle_ttl}
use solodock.Auth.Sessions.{authenticate, admit, AuthenticatedSession, has_token, is_expired}

abbrev from_some {ℓ} : {A : Type ℓ} → A → Option A → A
from_some a none = a
from_some a (some b) = b

-- A session ends twelve hours after its login at the latest, and an hour after it was last refreshed.
abbrev pub IsLimited : Session → Type 0
IsLimited session =
    (session.absolute_expires_at ≡ session.created_at + absolute_ttl)
    × (session.idle_expires_at ≤ session.absolute_expires_at)
    × (session.idle_expires_at ≤ session.last_seen_at + idle_ttl)

abbrev from_ok {ℓ} : {A : Type ℓ} → A → Result AuthError A → A
from_ok a (ok b) = b
from_ok a (err e) = a

admit_lem :
    (now : ℕ) (session : Session) (store : AuthStore) (answer : AuthenticatedSession)
    → (admit now session store).1 ≡ ok answer
    → (now < session.idle_expires_at)
      × (now < session.absolute_expires_at)
      × (answer.created_at ≡ session.created_at)
      × (answer.expires_at ≡ session.absolute_expires_at)
unfolding admit
admit_lem now session store answer h = elim (Bool-cases (is_expired now session)) [
  | inl over ↦ let bad = rw (admit, over) at h in cc
  | inr live ↦
      let same_answer = sym (rw (admit, live) at h) in
      (
        ground arith,
        ground arith,
        ap (λ r. (from_ok answer r).created_at) same_answer,
        ap (λ r. (from_ok answer r).expires_at) same_answer,
      )
]

All-found :
    (p : Session → Bool) (sessions : List Session) (session : Session)
    → All IsLimited sessions
    → find_where p sessions ≡ some session
    → IsLimited session
All-found p [] session hs e = cc
All-found p (s ∷ sessions) session (h, hs) e = elim (Bool-cases (p s)) [
  | inl hit ↦ rw (ap (λ o. from_some session o) (rw hit at e)) at h
  | inr miss ↦ All-found p sessions session hs (rw miss at e)
]

-- An admitted token belongs to a session that was opened less than twelve hours and last refreshed
-- less than an hour before, and the answer names the end of the twelve hours. The sessions of the
-- store satisfy `IsLimited`.
pub authenticate_admits :
    (token_hash : String) (now : ℕ) (store : AuthStore) (answer : AuthenticatedSession)
    → All IsLimited store.sessions
    → (authenticate token_hash now store).1 ≡ ok answer
    → (session : Session) × (find_where (has_token token_hash) store.sessions ≡ some session)
      × (now < session.created_at + absolute_ttl)
      × (now < session.last_seen_at + idle_ttl)
      × (answer.expires_at ≡ session.created_at + absolute_ttl)
unfolding authenticate
authenticate_admits token_hash now store answer limited h =
    elim (Bool-cases (is_some store.password_hash)) [
      | inr none_set ↦ let bad = rw (authenticate, none_set) at h in cc
      | inl set ↦ elim (Option-cases (find_where (has_token token_hash) store.sessions)) [
        | inl missing ↦ let bad = simp (authenticate, set, missing) at h in cc
        | inr (session, found) ↦
            let admitted = simp (authenticate, set, found) at h in
            let (idle, absolute, c, ends) = admit_lem now session store answer admitted in
            let (l, m, n) = All-found (has_token token_hash) store.sessions session limited found in
            (session, found, omega arith, omega arith, ends ∙ l)
      ]
    ]
