-- ===== src/Webhook/Rate/Window.antt =====
-- How many requests one window of the rate limiter admits (src/webhook/rate.rs).
use solodock.Base.{
  ap, inr, ==_iff, inl, Bool-cases, ℕ, suc, ◌+◌, ◌≤◌, ◌<◌, ◌≡◌, refl, Bool, true, false, Option,
  none, some, List, [], ◌∷◌, if◌then◌else◌, leb, ◌==◌, arith, All,
}
use solodock.Database.{Uuid}
use solodock.Webhook.Rate.{put, count_of, roll, check_app, check_rolled, State, Request, check}

-- The request comes before the window of `state` ends.
abbrev pub InWindow : ℕ → Request → Type 0
InWindow window request = request.0 < window + 60000

abbrev pub count_true : List Bool → ℕ
count_true [] = 0
count_true (b ∷ bs) = if b then suc (count_true bs) else count_true bs

abbrev pub cost : Bool → ℕ
cost b = if b then 1 else 0

-- What a request adds to the counter of `app` where it is admitted.
unfoldable pub cost_for : Uuid → Option Uuid → Bool → Bool → ℕ
cost_for app (some id) true answer = if id == app then cost answer else 0
cost_for app _ _ answer = 0

roll_within : (now : ℕ) (state : State) → now < state.window + 60000 → roll now state ≡ state
unfolding roll
roll_within now state h = ground arith

check_app-window :
    (app : Uuid) (state : State)
    → ((check_app app state).0.window ≡ state.window)
      × ((check_app app state).0.global ≡ state.global)
unfolding check_app
check_app-window app state = ground arith

check_rolled-global :
    (app_id : Option Uuid) (known_app : Bool) (state : State)
    → let (next, answer) = check_rolled app_id known_app state in
      (next.window ≡ state.window)
      × (cost answer + state.global ≤ next.global)
      × (state.global ≤ 120 → next.global ≤ 120)
unfolding check_rolled
check_rolled-global none known_app state = ground arith
check_rolled-global (some app) known_app state = ground (arith, check_app-window app)

count_of-put :
    (app other n : ℕ) (apps : List (Uuid × ℕ))
    → count_of other (put app n apps) ≡ (if app == other then n else count_of other apps)
unfolding count_of put
count_of-put app other n [] = refl
count_of-put app other n ((id, m) ∷ apps) = ground (arith, count_of-put app other n apps)

check_app-count :
    (app other : Uuid) (state : State)
    → let (next, answer) = check_app app state in
      ((if app == other then cost answer else 0) + count_of other state.apps
        ≤ count_of other next.apps)
      × (count_of other state.apps ≤ 10 → count_of other next.apps ≤ 10)
unfolding check_app
check_app-count app other state = elim (Bool-cases (leb 10 (count_of app state.apps))) [
  | inl h ↦
      rw (h, count_of-put app other (count_of app state.apps) state.apps)
        (ground (arith, ==_iff app other))
  | inr h ↦
      rw (h, count_of-put app other (suc (count_of app state.apps)) state.apps)
        (ground (arith, ==_iff app other, h))
]

check_rolled-count :
    (app_id : Option Uuid) (known_app : Bool) (other : Uuid) (state : State)
    → let (next, answer) = check_rolled app_id known_app state in
      (cost_for other app_id known_app answer + count_of other state.apps
        ≤ count_of other next.apps)
      × (count_of other state.apps ≤ 10 → count_of other next.apps ≤ 10)
unfolding check_rolled cost_for
check_rolled-count none known_app other state = ground arith
check_rolled-count (some app) false other state = ground arith
check_rolled-count (some app) true other state = elim (Bool-cases (leb 120 state.global)) [
  | inl h ↦ rw h (grind arith, λ k. k)
  | inr h ↦ rw h (check_app-count app other (record state { global = suc state.global }))
]

check_within :
    (app_id : Option Uuid) (known_app : Bool) (now : ℕ) (state : State)
    → now < state.window + 60000
    → check app_id known_app now state ≡ check_rolled app_id known_app state
unfolding check
check_within app_id known_app now state h =
    ap (check_rolled app_id known_app) (roll_within now state h)

-- The two bounds of a window, and that it does not end.
check-bounds :
    (app_id : Option Uuid) (known_app : Bool) (now : ℕ) (other : Uuid) (state : State)
    → now < state.window + 60000
    → let (next, answer) = check app_id known_app now state in
      (next.window ≡ state.window)
      × (cost answer + state.global ≤ next.global)
      × (state.global ≤ 120 → next.global ≤ 120)
      × (cost_for other app_id known_app answer + count_of other state.apps
          ≤ count_of other next.apps)
      × (count_of other state.apps ≤ 10 → count_of other next.apps ≤ 10)
check-bounds app_id known_app now other state h = rw (check_within app_id known_app now state h) (
    let (w, g, g') = check_rolled-global app_id known_app state in
    let (c, c') = check_rolled-count app_id known_app other state in (w, g, g', c, c'))

-- The admitted requests of a sequence, and those of a known application among them.
unfoldable pub admitted : List Request → State → ℕ
admitted [] state = 0
admitted ((now, app_id, known_app) ∷ rs) state =
    let (next, answer) = check app_id known_app now state in cost answer + admitted rs next

unfoldable pub admitted_for : Uuid → List Request → State → ℕ
admitted_for other [] state = 0
admitted_for other ((now, app_id, known_app) ∷ rs) state =
    let (next, answer) = check app_id known_app now state in
    cost_for other app_id known_app answer + admitted_for other rs next

-- Before its window ends, a limiter admits no more requests than bring its counter to 120, and for
-- one known application no more than bring the counter of that application to 10. The counters of
-- the state are within these bounds before.
pub check-window_bounds :
    (other : Uuid) (rs : List Request) (state : State)
    → state.global ≤ 120
    → count_of other state.apps ≤ 10
    → All (InWindow state.window) rs
    → (admitted rs state + state.global ≤ 120)
      × (admitted_for other rs state + count_of other state.apps ≤ 10)
unfolding admitted admitted_for
check-window_bounds other [] state g c hs = (omega arith, omega arith)
check-window_bounds other ((now, app_id, known_app) ∷ rs) state g c (h, hs) =
    let (w, g', g'', c', c'') = check-bounds app_id known_app now other state h in
    let (left, right) =
      check-window_bounds other rs (check app_id known_app now state).0 (g'' g) (c'' c) (rw w hs) in
    (omega arith, omega arith)
