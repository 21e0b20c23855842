-- ===== src/Registry/PollStates/Wake.antt =====
-- No webhook wake is lost between the delivery and the poll that it asks for
-- (src/registry/poll_state.rs, `accept_webhook` and `mark_webhook_processed`).
use solodock.Base.Table.{
  find_where-some, find_where-append_none, count_where_none→find, update_where, find_where_sound,
  find_where-update, find_where, count_where,
}
use solodock.Registry.PollStates.Store.{get, mark_webhook_processed}
use solodock.Registry.PollStates.Rows.{
  of_generation, of_app, processed, blank_state, woken, upsert, rewoken,
}
use solodock.Base.{
  ==_refl, ◌∙◌, text_eq_iff, ==_iff, ◌==◌, ◌++◌, not, is_some, if◌then◌else◌, All, String, List, ℕ,
  Option, Bool, true, false, none, some, [], ◌∷◌, ◌≡◌, ◌≤◌, ◌<◌, ◌≢◌, refl, inl, inr, Bool-cases,
  arith,
}
use solodock.Database.{Uuid, Time, Database, PollState}
use solodock.Registry.PollStates.Webhooks.{
  replay_row, purge, pending, wake, WebhookAccept, accept_webhook, has_nonce,
}
use solodock.Registry.PollStates.Invariant.{IsSound, IsWell}

-- The sequence that a poll captures before it reads the registry.
unfoldable pub asked : Option PollState → ℕ
asked none = 0
asked (some state) = state.webhook_sequence

unfoldable pub sequence : Uuid → Database → ℕ
sequence app db = asked (get app db)

All-find :
    (q : PollState → Bool) (states : List PollState) (state : PollState)
    → All IsSound states
    → find_where q states ≡ some state
    → state.webhook_processed_sequence ≤ state.webhook_sequence
All-find q [] state hs e = absurd cc
All-find q (s ∷ states) state (h, hs) e = ground (arith, All-find q states state hs, h.0)

-- A row of `app` that asks for a poll beyond `bound`.
abbrev pub AsksBeyond : Uuid → ℕ → List PollState → Type 0
AsksBeyond app bound states =
    (state : PollState) × (find_where (of_app app) states ≡ some state)
    × (bound < state.webhook_sequence)
    × (state.webhook_processed_sequence ≤ bound)

insert-AsksBeyond :
    (app : Uuid) (generation : String) (now : Time) (states : List PollState)
    → count_where (of_app app) states ≡ 0
    → AsksBeyond app 0 (states ++ woken app generation now ∷ [])
unfolding woken blank_state
insert-AsksBeyond app generation now states free = (
  woken app generation now,
  find_where-append_none (of_app app) states (woken app generation now ∷ []) free
      ∙ rw (==_refl app) refl,
  omega arith,
  omega arith,
)

merge-AsksBeyond :
    (app : Uuid) (generation : String) (now : Time) (states : List PollState) (state : PollState)
    → find_where (of_app app) states ≡ some state
    → state.webhook_processed_sequence ≤ state.webhook_sequence
    → AsksBeyond app state.webhook_sequence
        (update_where (of_app app) (rewoken generation now) states)
unfolding rewoken
merge-AsksBeyond app generation now states state e le = (
  rewoken generation now state,
  find_where-update (of_app app) (of_app app) (rewoken generation now) states state (λ s. refl) e
      ∙ rw (find_where_sound (of_app app) states state e) refl,
  omega arith,
  le,
)

upsert-AsksBeyond :
    (app : Uuid) (generation : String) (now : Time) (states : List PollState)
    → All IsSound states
    → AsksBeyond app
        (asked (find_where (of_app app) states))
        (upsert app (woken app generation now) (rewoken generation now) states)
unfolding upsert asked
upsert-AsksBeyond app generation now states sound =
    elim (Bool-cases (count_where (of_app app) states == 0)) [
      | inl h ↦
          let free = (==_iff _ _).0 h in
          rw (h, count_where_none→find (of_app app) states free)
            (insert-AsksBeyond app generation now states free)
      | inr h ↦
          let (state, e, hit) = find_where-some (of_app app) states (ground (arith, h)) in
          rw (h, e)
            (merge-AsksBeyond app generation now states state e
              (All-find (of_app app) states state sound e))
    ]

wake-AsksBeyond :
    (app : Uuid) (generation : String) (now : Time) (db : Database)
    → All IsSound db.poll_states
    → AsksBeyond app (sequence app db) (wake app generation true now db).0.poll_states
unfolding wake sequence get
wake-AsksBeyond app generation now db sound =
    upsert-AsksBeyond app generation now db.poll_states sound

mark-pending :
    (app : Uuid) (generation : String) (captured bound : ℕ) (now : Time) (db : Database)
    → captured ≤ bound
    → AsksBeyond app bound db.poll_states
    → pending app (mark_webhook_processed app generation captured now db) ≡ true
unfolding mark_webhook_processed pending get processed
mark-pending app generation captured bound now db le (state, e, more, less) =
    let there =
      find_where-update (of_generation app generation) (of_app app) (processed captured now)
        db.poll_states state (λ s. refl) e in
    ground (arith, there)

-- A delivery to an enabled application that is not a replay leaves a wake to be processed, also
-- after a poll that captured the sequence before it is marked as processed, under any generation.
-- The poll states satisfy `IsWell` before it.
pub accept-survives :
    (format_time : ℕ → Time) (app revision : Uuid) (nonce : List ℕ) (request_id : Uuid)
    (generation marked : String) (now : ℕ) (later : Time) (captured : ℕ) (db : Database)
    → IsWell db.poll_states
    → (accept_webhook format_time app revision nonce request_id generation true now db).1
      ≢ WebhookAccept.replay
    → captured ≤ sequence app db
    → pending app (
        mark_webhook_processed app marked captured later
          (accept_webhook format_time app revision nonce request_id generation true now db).0)
      ≡ true
unfolding accept_webhook sequence get
accept-survives format_time app revision nonce request_id generation marked now later captured db w
      ne le =
    elim (Bool-cases
      (count_where (has_nonce app revision nonce) (purge 100 (format_time now) db.replays) == 0)) [
        | inl fresh ↦ rw fresh (
            mark-pending app marked captured (sequence app db) later _ le (
              wake-AsksBeyond app generation (format_time now)
                (record db {
                  replays =
                      purge 100 (format_time now) db.replays
                      ++ replay_row format_time app revision nonce request_id now ∷ [];
                })
                w.sound))
        | inr seen ↦ absurd (rw seen at ne refl)
      ]

-- Once a poll that captured the current sequence of a row is marked under the generation of that
-- row, no wake of the application is left.
pub mark-finishes :
    (app : Uuid) (state : PollState) (now : Time) (db : Database)
    → get app db ≡ some state
    → pending app (mark_webhook_processed app state.generation (sequence app db) now db) ≡ false
unfolding mark_webhook_processed pending get sequence asked processed of_generation
mark-finishes app state now db e = rw e (
    let there =
      find_where-update (of_generation app state.generation) (of_app app)
        (processed state.webhook_sequence now) db.poll_states state (λ s. refl) e in
    let hit = find_where_sound (of_app app) db.poll_states state e in
    let same = (text_eq_iff state.generation state.generation).1 refl in
    rw (pending, get, there) (ground (arith, hit, same)))

wake-answer :
    (app : Uuid) (generation : String) (enabled : Bool) (now : Time) (db : Database)
    → (wake app generation enabled now db).1 ≡ (
        if not enabled
        then WebhookAccept.ignored_disabled
        else if pending app db
        then WebhookAccept.coalesced
        else WebhookAccept.accepted)
unfolding wake
wake-answer app generation true now db = refl
wake-answer app generation false now db = refl

-- What a delivery answers, in the order of the checks: a nonce that is remembered after the purge
-- is a replay, a disabled application ignores it, and otherwise it is coalesced exactly when a wake
-- was pending already.
pub accept_webhook-answer :
    (format_time : ℕ → Time) (app revision : Uuid) (nonce : List ℕ) (request_id : Uuid)
    (generation : String) (enabled : Bool) (now : ℕ) (db : Database)
    → (accept_webhook format_time app revision nonce request_id generation enabled now db).1 ≡ (
        if is_some
          (find_where (has_nonce app revision nonce) (purge 100 (format_time now) db.replays))
        then WebhookAccept.replay
        else if not enabled
        then WebhookAccept.ignored_disabled
        else if pending app db
        then WebhookAccept.coalesced
        else WebhookAccept.accepted)
unfolding accept_webhook wake
accept_webhook-answer format_time app revision nonce request_id generation enabled now db =
    let kept = purge 100 (format_time now) db.replays in
    elim (Bool-cases (count_where (has_nonce app revision nonce) kept == 0)) [
      | inl fresh ↦
          rw
            (
              fresh,
              count_where_none→find (has_nonce app revision nonce) kept ((==_iff _ _).0 fresh),
            )
            (wake-answer app generation enabled (format_time now) _)
      | inr seen ↦
          let (row, e, hit) =
            find_where-some (has_nonce app revision nonce) kept (ground (arith, seen)) in
          rw (seen, e) refl
    ]
