-- ===== src/Registry/PollStates/Calls.antt =====
-- Any sequence of calls of the poll state store, at any instants. A call that fails leaves the
-- database as it was.
use solodock.Base.{ℕ, String, Bool, Option, List, [], ◌∷◌, after}
use solodock.Database.{Uuid, Time, Database}
use solodock.Registry.PollStates.Rows.{PollObservation}
use solodock.Registry.PollStates.Store.{
  publish, try_initialize_generation, retain_apps, suppress, clear_suppression_if_target,
  mark_webhook_processed, remove_app_operational,
}
use solodock.Registry.PollStates.Webhooks.{accept_webhook}

pub data Call : Type 0 where
  publishes : Uuid → PollObservation → Call
  initializes : Uuid → Option String → String → Time → Call
  retains : List Uuid → Call
  suppresses : Uuid → String → Uuid → Call
  clears : Uuid → String → Call
  accepts : Uuid → Uuid → List ℕ → Uuid → String → Bool → Call
  marks : Uuid → String → ℕ → Call
  removes : Uuid → Call

module _ (format_time : ℕ → Time) where
  unfoldable pub step : Database → ℕ × Call → Database
  step db (now, publishes app value) = after db (publish app value (format_time now) db)
  step db (now, initializes app observed generation due) =
      (try_initialize_generation app observed generation due (format_time now) db).0
  step db (now, retains ids) = retain_apps ids db
  step db (now, suppresses app target deployment) =
      after db (suppress app target deployment (format_time now) db)
  step db (now, clears app target) = clear_suppression_if_target app target (format_time now) db
  step db (now, accepts app revision nonce request_id generation enabled) =
      (accept_webhook format_time app revision nonce request_id generation enabled now db).0
  step db (now, marks app generation captured) =
      mark_webhook_processed app generation captured (format_time now) db
  step db (now, removes app) = remove_app_operational app db

  unfoldable pub run : Database → List (ℕ × Call) → Database
  run db [] = db
  run db (c ∷ cs) = run (step db c) cs
