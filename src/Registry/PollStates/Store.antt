-- ===== src/Registry/PollStates/Store.antt =====
-- The methods of PollStateStore but `accept_webhook` (src/registry/poll_state.rs). Each takes the
-- database and the time of `OffsetDateTime::now_utc()` as stored, and returns the database that it
-- commits.
use solodock.Base.{
  ℕ, String, Bool, not, true, false, Option, none, some, List, [], ◌∷◌, ◌++◌, ◌==◌, ltb,
  if◌then◌else◌, Result, ok, ensure, ◌>>◌, any, is_some,
}
use solodock.Base.Table.{count_where, update_where, delete_where, find_where}
use solodock.Database.{Uuid, Time, Database, PollState, PollStateError}
use solodock.Registry.PollStates.Rows.{
  PollObservation, of_app, of_generation, upsert, published, republished, initialized, suppressed,
  has_suppressed, unsuppressed, processed, is_failure, blank_state,
}

unfoldable pub get : Uuid → Database → Option PollState
get app db = find_where (of_app app) db.poll_states

-- `UPDATE poll_states SET f WHERE p`.
abbrev pub update_states : (PollState → Bool) → (PollState → PollState) → Database → Database
update_states p f db = record db { poll_states = update_where p f db.poll_states }

unfoldable pub publish : Uuid → PollObservation → Time → Database → Result PollStateError Database
unfolding upsert published republished
publish app value now db = do
  ensure (not (ltb 5 value.transient_failures)) PollStateError.invalid
  ok (record db {
    poll_states = upsert app (published app value now) (republished value now) db.poll_states;
  })

-- The database, and whether exactly one row was written.
unfoldable pub try_initialize_generation :
    Uuid → Option String → String → Time → Time → Database → Database × Bool
unfolding of_generation initialized blank_state
try_initialize_generation app (some observed) generation due now db = (
  update_states (of_generation app observed) (initialized generation due now) db,
  count_where (of_generation app observed) db.poll_states == 1,
)
try_initialize_generation app none generation due now db =
    if count_where (of_app app) db.poll_states == 0
    then (
      record db {
        poll_states =
            db.poll_states
            ++ record (blank_state app generation now) { next_check_not_before = some due } ∷ [];
      },
      true,
    )
    else (db, false)

unfoldable pub retain_apps : List Uuid → Database → Database
retain_apps ids db = record db {
  poll_states = delete_where (λ state. not (any (λ id. state.app_id == id) ids)) db.poll_states;
  replays = delete_where (λ replay. not (any (λ id. replay.app_id == id) ids)) db.replays;
}

unfoldable pub suppress : Uuid → String → Uuid → Time → Database → Result PollStateError Database
unfolding suppressed
suppress app target deployment now db = do
  ensure (count_where (of_app app) db.poll_states == 1) PollStateError.corrupt
  ok (update_states (of_app app) (suppressed target deployment now) db)

unfoldable pub clear_suppression_if_target : Uuid → String → Time → Database → Database
unfolding has_suppressed unsuppressed
clear_suppression_if_target app target now =
    update_states (has_suppressed app target) (unsuppressed now)

-- The rows that are enabled, suppressed, and failed.
unfoldable pub counts : Database → ℕ × ℕ × ℕ
counts db = (
  count_where (λ state. state.enabled) db.poll_states,
  count_where (λ state. is_some state.suppressed_target_key) db.poll_states,
  count_where (λ state. is_failure state.last_outcome) db.poll_states,
)

unfoldable pub mark_webhook_processed : Uuid → String → ℕ → Time → Database → Database
unfolding of_generation processed
mark_webhook_processed app generation captured now =
    update_states (of_generation app generation) (processed captured now)

unfoldable pub webhook_replay_count : Database → ℕ
webhook_replay_count db = count_where (λ _. true) db.replays

unfoldable pub remove_app_operational : Uuid → Database → Database
remove_app_operational app db = record db {
  replays = delete_where (λ replay. replay.app_id == app) db.replays;
  poll_states = delete_where (of_app app) db.poll_states;
}
