-- ===== src/Tests/Upkeep.antt =====
-- The throttle of passwords (src/auth/mod.rs) and the retention of releases (src/retention.rs) on small inputs.
use solodock.Auth.Expiry.{authenticate_admits}
use solodock.Base.Table.{find_where}
use solodock.Base.{
  ◌+◌, ◌<◌, ℕ, List, ◌≡◌, refl, some, [], ◌∷◌, arith, true, ◌≤◌, max, length, text_eq,
}
use solodock.Auth.{
  idle_ttl, absolute_ttl, has_token, Session, open_session, authenticate, record_credential_failure,
  check_change, check_login, ensure_not_throttled, change_password, AuthStore, PasswordService,
  no_throttle, login, Generated,
}
use solodock.Auth.Guesses.{is_wrong, Guess, comparisons, comparisons_bounded, guess}
use solodock.Retention.{retained_releases, contains}
use solodock.Retention.Kept.{retained_releases-active}

-- A password that is stored as it is.
abbrev plain : PasswordService
plain = record { verify = text_eq; hash = λ s. s }

abbrev store : AuthStore
store = record {
  password_hash = some "secret";
  sessions = [];
  throttle = no_throttle;
  audit_events = [];
}

abbrev generated : Generated
generated = record { session_token = "s"; csrf_token = "c"; token_hash = "h"; id = "i" }

abbrev wrong : Guess
wrong = Guess.logs_in "admin" "guess" generated 1

abbrev guesses : List (ℕ × Guess)
guesses =
    (10, wrong)
    ∷ (11, wrong)
    ∷ (12, Guess.changes "guess" "new" 2)
    ∷ (13, wrong)
    ∷ (14, wrong)
    ∷ (15, wrong)
    ∷ (16, wrong)
    ∷ []

-- Of seven wrong passwords five are compared.
five_compared : comparisons plain store guesses ≡ 5
unfolding comparisons guess login change_password ensure_not_throttled check_login check_change
    record_credential_failure
five_compared = refl

comparisons_bounded_example : comparisons plain store guesses ≤ 5
unfolding is_wrong
comparisons_bounded_example = comparisons_bounded plain "secret" 10 guesses store refl refl (
  (refl, omega arith, omega arith),
  (
    (refl, omega arith, omega arith),
    (
      (refl, omega arith, omega arith),
      (
        (refl, omega arith, omega arith),
        (
          (refl, omega arith, omega arith),
          ((refl, omega arith, omega arith), ((refl, omega arith, omega arith), tt)),
        ),
      ),
    ),
  ),
)

abbrev logged_in : AuthStore
unfolding login
logged_in = (login plain "admin" "secret" generated 1 1000 store).0

authenticate_admits_example :
    (session : Session) × (find_where (has_token "h") logged_in.sessions ≡ some session)
    × (2000 < session.created_at + absolute_ttl)
    × (2000 < session.last_seen_at + idle_ttl)
    × (43200000001000 ≡ session.created_at + absolute_ttl)
unfolding authenticate login check_login ensure_not_throttled open_session
authenticate_admits_example =
    authenticate_admits "h" 2000 logged_in
      (record { id = "i"; created_at = 1000; expires_at = 43200000001000 })
      ((refl, omega arith, omega arith), tt) refl

kept_three : retained_releases (some 1) 3 (1 ∷ 4 ∷ 4 ∷ 5 ∷ 6 ∷ []) ≡ 5 ∷ 4 ∷ 1 ∷ []
unfolding retained_releases
kept_three = refl

retained_releases-active_example :
    (contains 1 (retained_releases (some 1) 3 (4 ∷ 5 ∷ 6 ∷ [])) ≡ true)
    × (length (retained_releases (some 1) 3 (4 ∷ 5 ∷ 6 ∷ [])) ≤ max 3 1)
retained_releases-active_example = retained_releases-active 1 3 (4 ∷ 5 ∷ 6 ∷ [])
