-- ===== src/Webhook/Rate.antt =====
-- WebhookRateLimiter (src/webhook/rate.rs). An `Instant` is a number of milliseconds on the monotonic
-- clock, and the map of counters an association list with one entry for a key.
use solodock.Base.{
  ℕ, suc, ◌+◌, ◌-◌, ◌≤◌, ◌<◌, ◌≡◌, refl, Bool, true, false, ◌&&◌, not, Option, none, some, List, [],
  ◌∷◌, if◌then◌else◌, leb, ◌==◌, any, arith,
}
use solodock.Database.{Uuid}
pub mod Window

pub record State : Type 0 where
  pub window : ℕ
  pub global : ℕ
  pub apps : List (Uuid × ℕ)

abbrev pub default : ℕ → State
default now = record { window = now; global = 0; apps = [] }

-- `*apps.entry(app_id).or_default()`.
unfoldable pub count_of : Uuid → List (Uuid × ℕ) → ℕ
count_of app [] = 0
count_of app ((id, n) ∷ apps) = if id == app then n else count_of app apps

-- `or_default` inserts a zero for a new key.
unfoldable pub put : Uuid → ℕ → List (Uuid × ℕ) → List (Uuid × ℕ)
put app n [] = (app, n) ∷ []
put app n ((id, m) ∷ apps) = if id == app then (id, n) ∷ apps else (id, m) ∷ put app n apps

-- `window.elapsed()` saturates at zero.
unfoldable pub roll : ℕ → State → State
roll now state = if leb 60000 (now - state.window) then default now else state

-- The counter of the application, after the global one.
unfoldable pub check_app : Uuid → State → State × Bool
unfolding count_of put
check_app app state =
    let count = count_of app state.apps in
    if leb 10 count
    then (record state { apps = put app count state.apps }, false)
    else (record state { apps = put app (suc count) state.apps }, true)

unfoldable pub check_rolled : Option Uuid → Bool → State → State × Bool
unfolding check_app
check_rolled app_id known_app state =
    if leb 120 state.global
    then (state, false)
    else (let counted = record state { global = suc state.global } in
        elim app_id [
          | none ↦ (counted, true)
          | some app ↦ if known_app then check_app app counted else (counted, true)
        ])

unfoldable pub check : Option Uuid → Bool → ℕ → State → State × Bool
unfolding roll check_rolled
check app_id known_app now state = check_rolled app_id known_app (roll now state)

abbrev pub retain : (Uuid → Bool) → List (Uuid × ℕ) → List (Uuid × ℕ)
retain p [] = []
retain p ((id, n) ∷ apps) = let rest = retain p apps in if p id then (id, n) ∷ rest else rest

unfoldable pub retain_apps : List Uuid → State → State
retain_apps ids state = record state { apps = retain (λ id. any (◌==◌ id) ids) state.apps }

-- A request: its instant, the application that it names, and whether the application is known.
abbrev pub Request : Type 0
Request = ℕ × Option Uuid × Bool

-- The answers to a sequence of requests.
unfoldable pub check_all : List Request → State → List Bool
check_all [] state = []
check_all ((now, app_id, known_app) ∷ rs) state =
    let (next, answer) = check app_id known_app now state in answer ∷ check_all rs next
