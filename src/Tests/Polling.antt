-- ===== src/Tests/Polling.antt =====
-- The poll state store (src/registry/poll_state.rs) and the rate limiter (src/webhook/rate.rs) on small
-- inputs.
use solodock.Base.Text.{same}
use solodock.Webhook.Rate.{default, Request, count_of}
use solodock.Base.{
  ◌≤◌, ◌≢◌, ◌+◌, text_eq, option_eq, ℕ, List, ◌≡◌, refl, some, none, [], ◌∷◌, arith, true, false,
}
use solodock.Database.{Time, PollState, Database, empty_database}
use solodock.Registry.PollStates.{
  suppress, replay_row, upsert, has_nonce, wake, step, mark_webhook_processed, WebhookAccept, Call,
  try_initialize_generation, run, purge, pending, get, accept_webhook, blank_state,
}
use solodock.Registry.PollStates.Invariant.{run-IsWell, IsWell}
use solodock.Registry.PollStates.Replay.{replay_refused}
use solodock.Registry.PollStates.Wake.{accept-survives}
use solodock.Registry.PollStates.Generation.{generation_of, try_initialize_generation-compares}
use solodock.Webhook.Rate.Window.{admitted_for, admitted, check-window_bounds}

-- Texts in the order of the instants.
abbrev plain_time : ℕ → Time
plain_time now = now

abbrev idle : PollState
unfolding blank_state
idle = blank_state 1 "g" 0

abbrev polled : Database
polled = record empty_database { poll_states = idle ∷ [] }

abbrev calls : List (ℕ × Call)
calls =
    (5, Call.accepts 1 2 (8 ∷ []) 3 "g" true)
    ∷ (6, Call.marks 1 "g" 0)
    ∷ (7, Call.accepts 1 2 (9 ∷ []) 3 "g" true)
    ∷ (8, Call.suppresses 1 "target" 4)
    ∷ (9, Call.initializes 1 (some "g") "h" 99)
    ∷ []

polled-IsWell : IsWell polled.poll_states
unfolding blank_state
polled-IsWell = record { one_row = λ app. ground arith; sound = ((omega arith, omega arith), tt) }

run-IsWell_example : IsWell (run plain_time polled calls).poll_states
run-IsWell_example = run-IsWell plain_time calls polled polled-IsWell

-- A first delivery is accepted, a second is coalesced, and a repeated one is a replay.
deliveries :
    ((accept_webhook plain_time 1 2 (7 ∷ []) 3 "g" true 4 polled).1 ≡ WebhookAccept.accepted)
    × ((accept_webhook plain_time 1 2 (7 ∷ []) 3 "g" true 10 (run plain_time polled calls)).1
        ≡ WebhookAccept.coalesced)
    × ((accept_webhook plain_time 1 2 (9 ∷ []) 3 "g" true 10 (run plain_time polled calls)).1
        ≡ WebhookAccept.replay)
unfolding run step accept_webhook purge wake has_nonce same pending get upsert blank_state
    replay_row mark_webhook_processed suppress try_initialize_generation
deliveries = (refl, refl, refl)

first_accepted :
    (accept_webhook plain_time 1 2 (7 ∷ []) 3 "g" true 4 polled).1 ≢ WebhookAccept.replay
unfolding accept_webhook purge wake has_nonce same pending get blank_state
first_accepted h = cc

replay_refused_example :
    let last =
      run plain_time (accept_webhook plain_time 1 2 (7 ∷ []) 3 "g" true 4 polled).0 calls in
    accept_webhook plain_time 1 2 (7 ∷ []) 5 "h" false 20 last ≡ (last, WebhookAccept.replay)
replay_refused_example =
    replay_refused plain_time 1 2 (7 ∷ []) 3 5 "g" "h" true false 4 20 calls polled first_accepted
      (
        (refl, omega arith),
        (
          (refl, omega arith),
          ((refl, omega arith), ((refl, omega arith), ((refl, omega arith), tt))),
        ),
      )
      (omega arith)

accept-survives_example :
    pending 1 (
      mark_webhook_processed 1 "g" 0 6
        (accept_webhook plain_time 1 2 (7 ∷ []) 3 "g" true 4 polled).0)
    ≡ true
accept-survives_example =
    accept-survives plain_time 1 2 (7 ∷ []) 3 "g" "g" 4 6 0 polled polled-IsWell first_accepted
      (omega arith)

try_initialize_generation-compares_example :
    (try_initialize_generation 1 (some "g") "h" 50 6 polled).1
    ≡ option_eq text_eq (generation_of (get 1 polled)) (some "g")
try_initialize_generation-compares_example =
    try_initialize_generation-compares 1 (some "g") "h" 50 6 polled polled-IsWell

abbrev requests : List Request
requests = (10, some 1, true) ∷ (20, none, false) ∷ (30, some 1, true) ∷ []

check-window_bounds_example :
    (admitted requests (default 5) + 0 ≤ 120)
    × (admitted_for 1 requests (default 5) + count_of 1 [] ≤ 10)
unfolding count_of
check-window_bounds_example =
    check-window_bounds 1 requests (default 5) (omega arith) (omega arith)
      (omega arith, (omega arith, (omega arith, tt)))
