-- ===== src/Registry/PollStates/Invariant.antt =====
-- What every sequence of calls keeps of the poll states (src/registry/poll_state.rs).
use solodock.Base.{
  true, false, none, some, some, false, ltb, after, Option, ◌∙◌, String, ℕ, sym, [], ◌∷◌, ==_iff,
  ◌==◌, ◌++◌, List, Bool, ◌≤◌, ◌≡◌, refl, inl, inr, Bool-cases, All, All-append, arith,
}
use solodock.Base.Table.{
  update_where, delete_where, count_where, count_where-append, count_where-update_eq,
  count_where-delete_le, All-update, All-delete,
}
use solodock.Database.{Uuid, Time, Database, PollState}
use solodock.Registry.PollStates.Rows.{
  rewoken, of_generation, has_suppressed, woken, unsuppressed, suppressed, processed, initialized,
  blank_state, PollObservation, republished, published, upsert, of_app,
}
use solodock.Registry.PollStates.Store.{
  remove_app_operational, try_initialize_generation, suppress, retain_apps, publish,
  mark_webhook_processed, clear_suppression_if_target,
}
use solodock.Registry.PollStates.Webhooks.{purge, has_nonce, wake, accept_webhook}
use solodock.Registry.PollStates.Calls.{Call, step, run}

-- No wake is processed before it is asked for, and the back-off stays in its range.
abbrev pub IsSound : PollState → Type 0
IsSound state =
    (state.webhook_processed_sequence ≤ state.webhook_sequence)
    × (state.consecutive_transient_failures ≤ 5)

pub record IsWell (states : List PollState) : Type 0 where
  pub one_row : (app : Uuid) → count_where (of_app app) states ≤ 1
  pub sound : All IsSound states

count_inserted :
    (app other : Uuid) (fresh : PollState) (states : List PollState)
    → fresh.app_id ≡ app
    → count_where (of_app app) states ≡ 0
    → count_where (of_app other) states ≤ 1
    → count_where (of_app other) (states ++ fresh ∷ []) ≤ 1
count_inserted app other fresh states e free le = elim (Bool-cases (of_app other fresh)) [
  | inl h ↦
      let free' = rw (sym e ∙ (==_iff fresh.app_id other).0 h) at free in
      ground (arith, count_where-append (of_app other) states (fresh ∷ []), free')
  | inr h ↦ ground (arith, count_where-append (of_app other) states (fresh ∷ []))
]

-- A row of an application that has none.
pub insert-IsWell :
    (app : Uuid) (fresh : PollState) (states : List PollState)
    → fresh.app_id ≡ app
    → IsSound fresh
    → count_where (of_app app) states ≡ 0
    → IsWell states
    → IsWell (states ++ fresh ∷ [])
insert-IsWell app fresh states e s free w = record {
  one_row = λ other. count_inserted app other fresh states e free (w.one_row other);
  sound = All-append IsSound states (fresh ∷ []) w.sound (s, tt);
}

pub update-IsWell :
    (p : PollState → Bool) (f : PollState → PollState) (states : List PollState)
    → ((state : PollState) → (f state).app_id ≡ state.app_id)
    → ((state : PollState) → IsSound state → IsSound (f state))
    → IsWell states
    → IsWell (update_where p f states)
update-IsWell p f states keeps sound w = record {
  one_row = λ app. omega (
    arith,
    count_where-update_eq p (of_app app) f states (λ r. rw (keeps r) refl),
    w.one_row app,
  );
  sound = All-update IsSound p f states sound w.sound;
}

pub delete-IsWell :
    (p : PollState → Bool) (states : List PollState)
    → IsWell states
    → IsWell (delete_where p states)
delete-IsWell p states w = record {
  one_row = λ app. omega (arith, count_where-delete_le p (of_app app) states, w.one_row app);
  sound = All-delete IsSound p states w.sound;
}

pub upsert-IsWell :
    (app : Uuid) (fresh : PollState) (merge : PollState → PollState) (states : List PollState)
    → fresh.app_id ≡ app
    → IsSound fresh
    → ((state : PollState) → (merge state).app_id ≡ state.app_id)
    → ((state : PollState) → IsSound state → IsSound (merge state))
    → IsWell states
    → IsWell (upsert app fresh merge states)
unfolding upsert
upsert-IsWell app fresh merge states e s keeps sound w =
    elim (Bool-cases (count_where (of_app app) states == 0)) [
      | inl h ↦ rw h (insert-IsWell app fresh states e s ((==_iff _ _).0 h) w)
      | inr h ↦ rw h (update-IsWell (of_app app) merge states keeps sound w)
    ]

published-app :
    (app : Uuid) (value : PollObservation) (now : Time) → (published app value now).app_id ≡ app
unfolding published blank_state
published-app app value now = refl

published-IsSound :
    (app : Uuid) (value : PollObservation) (now : Time)
    → ltb 5 value.transient_failures ≡ false
    → IsSound (published app value now)
unfolding published blank_state
published-IsSound app value now h = (omega arith, ground arith)

republished-app :
    (value : PollObservation) (now : Time) (old : PollState)
    → (republished value now old).app_id ≡ old.app_id
unfolding republished
republished-app value now old = refl

republished-IsSound :
    (value : PollObservation) (now : Time) (old : PollState)
    → ltb 5 value.transient_failures ≡ false
    → IsSound old
    → IsSound (republished value now old)
unfolding republished
republished-IsSound value now old h s = (s.0, ground arith)

publish-IsWell :
    (app : Uuid) (value : PollObservation) (now : Time) (db : Database)
    → IsWell db.poll_states
    → IsWell (after db (publish app value now db)).poll_states
unfolding publish
publish-IsWell app value now db w = elim (Bool-cases (ltb 5 value.transient_failures)) [
  | inl h ↦ rw h w
  | inr h ↦ rw h (
      upsert-IsWell app (published app value now) (republished value now) db.poll_states
        (published-app app value now) (published-IsSound app value now h)
        (λ state. republished-app value now state)
        (λ state s. republished-IsSound value now state h s) w)
]

initialize-IsWell :
    (app : Uuid) (observed : Option String) (generation : String) (due now : Time) (db : Database)
    → IsWell db.poll_states
    → IsWell (try_initialize_generation app observed generation due now db).0.poll_states
unfolding try_initialize_generation initialized blank_state
initialize-IsWell app (some observed) generation due now db w =
    update-IsWell (of_generation app observed) (initialized generation due now) db.poll_states
      (λ state. refl) (λ state s. (s.0, omega arith)) w
initialize-IsWell app none generation due now db w =
    elim (Bool-cases (count_where (of_app app) db.poll_states == 0)) [
      | inl h ↦
          rw h (
            insert-IsWell app _ db.poll_states refl (omega arith, omega arith) ((==_iff _ _).0 h) w)
      | inr h ↦ rw h w
    ]

suppress-IsWell :
    (app : Uuid) (target : String) (deployment : Uuid) (now : Time) (db : Database)
    → IsWell db.poll_states
    → IsWell (after db (suppress app target deployment now db)).poll_states
unfolding suppress suppressed
suppress-IsWell app target deployment now db w =
    elim (Bool-cases (count_where (of_app app) db.poll_states == 1)) [
      | inl h ↦ rw h (
          update-IsWell (of_app app) (suppressed target deployment now) db.poll_states
            (λ state. refl) (λ state s. s) w)
      | inr h ↦ rw h w
    ]

clear-IsWell :
    (app : Uuid) (target : String) (now : Time) (db : Database)
    → IsWell db.poll_states
    → IsWell (clear_suppression_if_target app target now db).poll_states
unfolding clear_suppression_if_target unsuppressed
clear-IsWell app target now db w =
    update-IsWell (has_suppressed app target) (unsuppressed now) db.poll_states (λ state. refl)
      (λ state s. s) w

mark-IsWell :
    (app : Uuid) (generation : String) (captured : ℕ) (now : Time) (db : Database)
    → IsWell db.poll_states
    → IsWell (mark_webhook_processed app generation captured now db).poll_states
unfolding mark_webhook_processed processed
mark-IsWell app generation captured now db w =
    update-IsWell (of_generation app generation) (processed captured now) db.poll_states
      (λ state. refl) (λ state s. (omega arith, s.1)) w

wake-IsWell :
    (app : Uuid) (generation : String) (enabled : Bool) (now : Time) (db : Database)
    → IsWell db.poll_states
    → IsWell (wake app generation enabled now db).0.poll_states
unfolding wake woken rewoken blank_state
wake-IsWell app generation false now db w = w
wake-IsWell app generation true now db w =
    upsert-IsWell app (woken app generation now) (rewoken generation now) db.poll_states refl
      (omega arith, omega arith) (λ state. refl)
      (λ state s. (omega (arith, s.0), ground (arith, s.1))) w

accept-IsWell :
    (format_time : ℕ → Time) (app revision : Uuid) (nonce : List ℕ) (request_id : Uuid)
    (generation : String) (enabled : Bool) (now : ℕ) (db : Database)
    → IsWell db.poll_states
    → IsWell
        (accept_webhook format_time app revision nonce request_id generation enabled now
          db).0.poll_states
unfolding accept_webhook
accept-IsWell format_time app revision nonce request_id generation enabled now db w =
    elim (Bool-cases
      (count_where (has_nonce app revision nonce) (purge 100 (format_time now) db.replays) == 0)) [
        | inl h ↦ rw h (wake-IsWell app generation enabled (format_time now) _ w)
        | inr h ↦ rw h w
      ]

step-IsWell :
    (format_time : ℕ → Time) (db : Database) (now : ℕ) (call : Call)
    → IsWell db.poll_states
    → IsWell (step format_time db (now, call)).poll_states
unfolding step retain_apps remove_app_operational
step-IsWell ft db now (Call.publishes app value) w = publish-IsWell app value (ft now) db w
step-IsWell ft db now (Call.initializes app observed generation due) w =
    initialize-IsWell app observed generation due (ft now) db w
step-IsWell ft db now (Call.retains ids) w = delete-IsWell _ db.poll_states w
step-IsWell ft db now (Call.suppresses app target deployment) w =
    suppress-IsWell app target deployment (ft now) db w
step-IsWell ft db now (Call.clears app target) w = clear-IsWell app target (ft now) db w
step-IsWell ft db now (Call.accepts app revision nonce request_id generation enabled) w =
    accept-IsWell ft app revision nonce request_id generation enabled now db w
step-IsWell ft db now (Call.marks app generation captured) w =
    mark-IsWell app generation captured (ft now) db w
step-IsWell ft db now (Call.removes app) w = delete-IsWell _ db.poll_states w

-- Every sequence of calls of the store keeps one row at most for an application, and in each row the
-- processed sequence at or below the webhook sequence and the count of failures at 5 or below.
pub run-IsWell :
    (format_time : ℕ → Time) (cs : List (ℕ × Call)) (db : Database)
    → IsWell db.poll_states
    → IsWell (run format_time db cs).poll_states
unfolding run
run-IsWell ft [] db w = w
run-IsWell ft ((now, c) ∷ cs) db w =
    run-IsWell ft cs (step ft db (now, c)) (step-IsWell ft db now c w)
