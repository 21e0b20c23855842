-- ===== src/Auth/Guesses.antt =====
-- How many wrong passwords are compared in fifteen minutes (src/auth/mod.rs).
use solodock.Base.{
  ◌/◌, ◌-◌, max, ◌∙◌, ap, not, ℕ, suc, ◌+◌, ◌≤◌, ◌<◌, ◌≡◌, refl, ◌⊎◌, inl, inr, ◌&&◌, Bool, true,
  false, none, some, List, [], ◌∷◌, String, text_eq, Option-cases, Bool-cases, Result, ok, err, All,
  arith, leb, ltb,
}
use solodock.Database.{Uuid}
use solodock.Auth.Store.{
  action_of, actor_of, AuthStore, AuthThrottle, AuthError, CredentialAttempt, no_throttle,
}
use solodock.Auth.Throttle.{
  throttle_limit, throttle_window, throttle_cooldown, blocked_at, failed_throttle,
  record_credential_failure, ensure_not_throttled, insert_audit,
}
use solodock.Auth.Credentials.{
  PasswordService, Generated, login, change_password, check_login, check_change,
}

-- The throttle of an interval of fifteen minutes from `start` on: fresh, or with a window that
-- started in the interval and, after five failures, with a cooldown beyond its end.
abbrev pub IsBounded : ℕ → AuthThrottle → Type 0
IsBounded start throttle =
    (throttle ≡ no_throttle)
    ⊎ ((opened : ℕ) × (throttle.window_started_at ≡ some opened)
        × (start ≤ opened)
        × ((throttle.failure_count < 5)
            ⊎ ((until : ℕ) × (throttle.blocked_until ≡ some until)
                × (start + throttle_window ≤ until))))

-- The failure of an attempt that is not blocked.
failed-IsBounded :
    (start now : ℕ) (throttle : AuthThrottle)
    → start ≤ now
    → now < start + throttle_window
    → IsBounded start throttle
    → blocked_at now throttle ≡ none
    → (throttle.failure_count < 5)
      × ((failed_throttle now throttle).failure_count ≡ suc throttle.failure_count)
      × IsBounded start (failed_throttle now throttle)
unfolding blocked_at failed_throttle
failed-IsBounded start now throttle le lt (inl e) b =
    rw e (omega arith, refl, inr (now, refl, le, inl (omega arith)))
failed-IsBounded start now throttle le lt (inr (opened, e, after, inr (until, u, far))) b =
    let h = rw (u, blocked_at) at b in absurd (ground arith)
failed-IsBounded start now throttle le lt (inr (opened, e, after, inl few)) b =
    let within : ltb now (opened + throttle_window) ≡ true = ground arith in
    rw (e, within)
      (
        few,
        refl,
        inr (
          opened,
          refl,
          after,
          elim (Bool-cases (leb throttle_limit (suc throttle.failure_count))) [
            | inl full ↦ rw full (inr (now + throttle_cooldown, refl, omega arith))
            | inr room ↦ inl (ground arith)
          ],
        ),
      )

ensure_not_throttled-free :
    (now : ℕ) (request_id : Uuid) (attempt : CredentialAttempt) (store : AuthStore)
    → blocked_at now store.throttle ≡ none
    → ensure_not_throttled now request_id attempt store ≡ (store, ok tt)
unfolding ensure_not_throttled
ensure_not_throttled-free now request_id attempt store free = rw (ensure_not_throttled, free) refl

-- A refusal by the cooldown keeps the throttle and the stored hash.
ensure_not_throttled-blocked :
    (now until : ℕ) (request_id : Uuid) (attempt : CredentialAttempt) (store : AuthStore)
    → blocked_at now store.throttle ≡ some until
    → (next : AuthStore) × (seconds : ℕ) × (ensure_not_throttled now request_id attempt store
        ≡ (next, err (AuthError.cooldown seconds)))
      × (next.password_hash ≡ store.password_hash)
      × (next.throttle ≡ store.throttle)
unfolding ensure_not_throttled insert_audit
ensure_not_throttled-blocked now until request_id attempt store b = (
  insert_audit (actor_of attempt) request_id (action_of attempt) "failure" (some "AUTH_COOLDOWN")
      now store,
  max ((until - now) / 1000000000) 1,
  rw (ensure_not_throttled, b) refl,
  refl,
  refl,
)

-- A login or a change of the password, with the values that it needs.
pub data Guess : Type 0 where
  logs_in : String → String → Generated → Uuid → Guess
  changes : String → String → Uuid → Guess

-- What an answer says of the comparison of the password.
abbrev pub compared {ℓ} : {A : Type ℓ} → Result AuthError A → ℕ
compared (err AuthError.invalid_credentials) = 1
compared (err AuthError.current_password_invalid) = 1
compared _ = 0

module _ (password : PasswordService) where
  -- The guess does not match the stored hash.
  unfoldable pub is_wrong : String → Guess → Bool
  is_wrong hash (logs_in username given generated request_id) =
      not (text_eq username "admin" && password.verify given hash)
  is_wrong hash (changes current new_password request_id) = not (password.verify current hash)

  -- The store after a guess, and the comparisons that it took: one or none.
  unfoldable pub guess : AuthStore → ℕ × Guess → AuthStore × ℕ
  guess store (now, logs_in username given generated request_id) =
      let (next, answer) = login password username given generated request_id now store in
      (next, compared answer)
  guess store (now, changes current new_password request_id) =
      let (next, answer) = change_password password current new_password request_id now store in
      (next, compared answer)

  -- The wrong passwords that are compared in a sequence of guesses.
  unfoldable pub comparisons : AuthStore → List (ℕ × Guess) → ℕ
  comparisons store [] = 0
  comparisons store (g ∷ gs) = (guess store g).1 + comparisons (guess store g).0 gs

  check_login-wrong :
      (hash username given : String) (generated : Generated) (request_id : Uuid) (now : ℕ)
      (store : AuthStore)
      → store.password_hash ≡ some hash
      → text_eq username "admin" && password.verify given hash ≡ false
      → check_login password username given generated request_id now store ≡ (
        record_credential_failure request_id now CredentialAttempt.login_attempt store,
        err AuthError.invalid_credentials,
      )
  unfolding check_login
  check_login-wrong hash username given generated request_id now store e miss =
      simp (check_login, e, miss)

  check_change-wrong :
      (hash current new_password : String) (request_id : Uuid) (now : ℕ) (store : AuthStore)
      → store.password_hash ≡ some hash
      → password.verify current hash ≡ false
      → check_change password current new_password request_id now store ≡ (
        record_credential_failure request_id now CredentialAttempt.password_change store,
        err AuthError.current_password_invalid,
      )
  unfolding check_change
  check_change-wrong hash current new_password request_id now store e miss =
      simp (check_change, e, miss)

  -- A wrong guess is refused by the cooldown, or compared and counted.
  guess-cases :
      (hash : String) (now : ℕ) (g : Guess) (store : AuthStore)
      → store.password_hash ≡ some hash
      → is_wrong hash g ≡ true
      → ((guess store (now, g)).0.password_hash ≡ some hash)
        × ((((guess store (now, g)).1 ≡ 0) × ((guess store (now, g)).0.throttle ≡ store.throttle))
            ⊎ (((guess store (now, g)).1 ≡ 1)
                × (blocked_at now store.throttle ≡ none)
                × ((guess store (now, g)).0.throttle ≡ failed_throttle now store.throttle)))
  unfolding guess is_wrong login change_password record_credential_failure insert_audit
  guess-cases hash now (logs_in username given generated request_id) store e w =
      let miss : text_eq username "admin" && password.verify given hash ≡ false = ground arith in
      elim (Option-cases (blocked_at now store.throttle)) [
        | inl free ↦
            let r =
              ensure_not_throttled-free now request_id CredentialAttempt.login_attempt store free in
            rw
              (
                guess,
                login,
                r,
                r,
                check_login-wrong hash username given generated request_id now store e miss,
              )
              (e, inr (refl, free, refl))
        | inr (until, b) ↦
            let (next, seconds, r, h, t) =
              ensure_not_throttled-blocked now until request_id CredentialAttempt.login_attempt
                store b in
            rw (guess, login, r, r) (h ∙ e, inl (refl, t))
      ]
  guess-cases hash now (changes current new_password request_id) store e w =
      let miss : password.verify current hash ≡ false = ground arith in
      elim (Option-cases (blocked_at now store.throttle)) [
        | inl free ↦
            let r =
              ensure_not_throttled-free now request_id CredentialAttempt.password_change store
                free in
            rw
              (
                guess,
                change_password,
                r,
                r,
                check_change-wrong hash current new_password request_id now store e miss,
              )
              (e, inr (refl, free, refl))
        | inr (until, b) ↦
            let (next, seconds, r, h, t) =
              ensure_not_throttled-blocked now until request_id CredentialAttempt.password_change
                store b in
            rw (guess, change_password, r, r) (h ∙ e, inl (refl, t))
      ]

  comparisons-IsBounded :
      (hash : String) (start : ℕ) (gs : List (ℕ × Guess)) (store : AuthStore)
      → store.password_hash ≡ some hash
      → IsBounded start store.throttle
      → store.throttle.failure_count ≤ 5
      → All
          (λ (g : ℕ × Guess).
            (is_wrong hash g.1 ≡ true) × (start ≤ g.0) × (g.0 < start + throttle_window))
          gs
      → comparisons store gs + store.throttle.failure_count ≤ 5
  unfolding comparisons
  comparisons-IsBounded hash start [] store e v c hs = omega arith
  comparisons-IsBounded hash start ((now, g) ∷ gs) store e v c ((w, le, lt), hs) =
      let (kept, either) = guess-cases hash now g store e w in
      elim either [
        | inl (none_compared, same) ↦
            let rest =
              comparisons-IsBounded hash start gs (guess store (now, g)).0 kept (rw same v)
                (rw same c) hs in
            omega (arith, rest, none_compared, ap (λ (t : AuthThrottle). t.failure_count) same)
        | inr (one, free, next) ↦
            let (few, counted, bounded) = failed-IsBounded start now store.throttle le lt v free in
            let count = ap (λ (t : AuthThrottle). t.failure_count) next ∙ counted in
            let rest =
              comparisons-IsBounded hash start gs (guess store (now, g)).0 kept (rw next bounded)
                (omega arith) hs in
            omega (arith, rest, one, count)
      ]

  -- Take a sequence of logins and changes of the password that are all wrong against one stored hash,
  -- all within fifteen minutes from an instant, on a store whose throttle is fresh. However their times
  -- are ordered, five of these passwords at most are compared with the hash. (A right password in
  -- between would reset the throttle, and is not in such a sequence.)
  pub comparisons_bounded :
      (hash : String) (start : ℕ) (gs : List (ℕ × Guess)) (store : AuthStore)
      → store.password_hash ≡ some hash
      → store.throttle ≡ no_throttle
      → All
          (λ (g : ℕ × Guess).
            (is_wrong hash g.1 ≡ true) × (start ≤ g.0) × (g.0 < start + throttle_window))
          gs
      → comparisons store gs ≤ 5
  comparisons_bounded hash start gs store e fresh hs =
      let count = ap (λ (t : AuthThrottle). t.failure_count) fresh in
      let all_of = comparisons-IsBounded hash start gs store e (inl fresh) (omega arith) hs in
      omega (arith, all_of)
