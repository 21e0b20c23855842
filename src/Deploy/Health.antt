-- ===== src/Deploy/Health.antt =====
-- Health verification of a candidate container (src/deploy/health.rs, src/domain/health.rs). Docker,
-- the clock and the shutdown token enter as a list of rounds: what each round of the loop observes.
-- Times are milliseconds of the monotonic clock.
use solodock.Base.{
  ℕ, ◌+◌, ◌-◌, Bool, true, false, not, ◌&&◌, Option, none, some, List, [], ◌∷◌, leb, if◌then◌else◌,
  is_some, option_eq, Result, ok, err, ensure, ok_or, ◌>>=◌, ◌>>◌, max, ◌*◌, ◌/◌,
}
pub mod Gate
pub mod Rounds
pub mod Deadline
use solodock.Base.Int.{ℤ, pos, int_eq}
use solodock.Base.Text.{Text, same}
use solodock.Database.{Uuid}
use solodock.Docker.Models.{ContainerRecord, ContainerStatus, HealthStatus}
use solodock.Docker.Ownership.{release_id_label, UuidCrate, label_is}
use solodock.Registry.Identity.{ImageIdentity, matches_observation}

pub data HttpClient : Type 0 where
  curl wget : HttpClient

pub record HttpHealthcheck : Type 0 where
  pub client : HttpClient
  pub scheme : Text
  pub host : Text
  pub port : ℕ
  pub path : Text
  pub interval_seconds : ℕ
  pub timeout_seconds : ℕ
  pub retries : ℕ
  pub start_period_seconds : ℕ

pub data HealthPolicy : Type 0 where
  healthy : Option HttpHealthcheck → HealthPolicy
  running : ℕ → HealthPolicy
  completed : HealthPolicy
  disabled : Bool → HealthPolicy

pub data HealthError : Type 0 where
  missing unhealthy timeout exited restarted completed_nonzero not_ready changed : HealthError
  identity_mismatch observation interrupted : HealthError

-- `outcome` is always "passed" and `code` always `None`: these two fields are left out.
pub record HealthResult : Type 0 where
  pub elapsed_seconds : ℕ
  pub restart_count : Option ℤ
  pub exit_code : Option ℤ
  pub verified_container : ContainerRecord

abbrev pub startup_seconds : ℕ
startup_seconds = 300

abbrev pub observation_margin_seconds : ℕ
observation_margin_seconds = 10

-- Seconds.
unfoldable pub health_deadline : HealthPolicy → ℕ
health_deadline (running window) = startup_seconds + window + observation_margin_seconds
health_deadline (healthy (some http)) = max startup_seconds (
    http.start_period_seconds
    + http.retries * (http.interval_seconds + http.timeout_seconds)
    + observation_margin_seconds)
health_deadline (healthy none) = startup_seconds
health_deadline completed = startup_seconds
health_deadline (disabled ack) = startup_seconds

abbrev is_zero : Option ℤ → Bool
is_zero code = option_eq int_eq code (some (pos 0))

-- The `match` of the policy `Completed`.
unfoldable pub completed_ready : ContainerStatus → Option ℤ → Result HealthError Bool
completed_ready ContainerStatus.exited exit_code =
    if is_zero exit_code then ok true else err HealthError.completed_nonzero
completed_ready ContainerStatus.dead exit_code = err HealthError.exited
completed_ready _ exit_code = ok false

-- The check of the health status.
unfoldable pub healthcheck_ready : HealthPolicy → HealthStatus → Result HealthError Bool
healthcheck_ready (healthy http) HealthStatus.healthy = ok true
healthcheck_ready (healthy http) HealthStatus.starting = ok false
healthcheck_ready (healthy http) HealthStatus.unhealthy = err HealthError.unhealthy
healthcheck_ready (healthy http) _ = err HealthError.missing
healthcheck_ready _ _ = ok true

unfoldable pub running_ready :
    ContainerStatus → HealthPolicy → HealthStatus → Result HealthError Bool
unfolding healthcheck_ready
running_ready ContainerStatus.exited _ _ = err HealthError.exited
running_ready ContainerStatus.dead _ _ = err HealthError.exited
running_ready ContainerStatus.paused _ _ = err HealthError.not_ready
running_ready ContainerStatus.removing _ _ = err HealthError.not_ready
running_ready ContainerStatus.running policy check = healthcheck_ready policy check
running_ready _ _ _ = ok false

unfoldable pub policy_ready : ContainerRecord → HealthPolicy → Result HealthError Bool
unfolding completed_ready running_ready
policy_ready container completed = completed_ready container.status container.exit_code
policy_ready container (healthy http) =
    running_ready container.status (healthy http) container.health
policy_ready container (running window) =
    running_ready container.status (running window) container.health
policy_ready container (disabled ack) =
    running_ready container.status (disabled ack) container.health

unfoldable pub recheck :
    HealthResult → ContainerRecord → HealthPolicy → Result HealthError (Unit {0})
recheck result container policy = do
  ensure (same container.id result.verified_container.id) HealthError.changed
  ensure
      (option_eq same container.started_at result.verified_container.started_at
        && option_eq int_eq container.restart_count result.verified_container.restart_count)
      HealthError.restarted
  ready ← policy_ready container policy
  ensure ready HealthError.not_ready

-- What `verify` is asked about.
pub record Subject : Type 0 where
  pub container_id : Text
  pub release_id : Uuid
  pub configured_image_ref : Text
  pub image_identity : ImageIdentity
  pub policy : HealthPolicy
  pub deadline : ℕ

-- One call of `inspect_before` and what follows it in the round: the time on entry, whether the
-- shutdown or the timeout won, Docker's answer, the time when the answer is judged, and the time and
-- the shutdown after the sleep of one second.
pub record Round : Type 0 where
  pub entered : ℕ
  pub cancelled : Bool
  pub timed_out : Bool
  pub answer : Option ContainerRecord
  pub judged : ℕ
  pub cancelled_asleep : Bool
  pub woken : ℕ

module _ (uuid : UuidCrate) where
  unfoldable pub inspect_exact :
      Subject → Option ContainerRecord → Result HealthError ContainerRecord
  unfolding label_is
  inspect_exact subject answer = do
    value ← ok_or answer HealthError.observation
    ensure
        (same value.id subject.container_id
          && (label_is release_id_label (uuid.to_string subject.release_id) value.labels
              && option_eq same value.configured_image_ref (some subject.configured_image_ref)))
        HealthError.changed
    ensure (matches_observation subject.image_identity value.image_id value.manifest_descriptor)
        HealthError.identity_mismatch
    ok value

  unfoldable pub inspect_before : Subject → Round → Result HealthError ContainerRecord
  unfolding inspect_exact
  inspect_before subject round = do
    ensure (leb round.entered subject.deadline) HealthError.timeout
    ensure (not round.cancelled) HealthError.interrupted
    ensure (not round.timed_out) HealthError.timeout
    inspect_exact subject round.answer

-- The variables of the loop; `baseline_restarts` does not change.
pub record Watch : Type 0 where
  pub baseline_started : Option Text
  pub awaiting_first_start : Bool
  pub baseline_restarts : Option ℤ
  pub running_since : Option ℕ

abbrev is_created : ContainerStatus → Bool
is_created ContainerStatus.created = true
is_created _ = false

abbrev has_run : ContainerStatus → Bool
has_run ContainerStatus.running = true
has_run ContainerStatus.exited = true
has_run _ = false

unfoldable pub watch_from : ContainerRecord → Watch
watch_from first = record {
  baseline_started = first.started_at;
  awaiting_first_start =
      is_created first.status && (not (is_some first.started_at) && is_zero first.restart_count);
  baseline_restarts = first.restart_count;
  running_since = none;
}

unfoldable pub stable_required : HealthPolicy → ℕ
stable_required (running window) = window
stable_required (disabled ack) = 5
stable_required _ = 0

-- The first start of a created container sets the baseline, once.
unfoldable pub rebase : Watch → ContainerRecord → Watch
rebase watch container =
    if watch.awaiting_first_start
      && (is_some container.started_at
          && (has_run container.status && is_zero container.restart_count))
    then record watch { baseline_started = container.started_at; awaiting_first_start = false }
    else watch

unfoldable pub get_or_insert : Option ℕ → ℕ → ℕ
get_or_insert none now = now
get_or_insert (some since) now = since

-- The end of a round: a result, an error, or the next round.
pub data Verdict : Type 0 where
  passed : HealthResult → Verdict
  failed : HealthError → Verdict
  again : Watch → Verdict

abbrev pub fallible {ℓ} : {A : Type ℓ} → Result HealthError A → (A → Verdict) → Verdict
fallible (ok a) f = f a
fallible (err e) f = failed e

-- From the judgement of a ready or unready container to the end of the round; `started` is the time
-- when `verify` was called.
unfoldable pub settle : Subject → Round → Watch → ContainerRecord → Bool → Verdict
unfolding get_or_insert stable_required
settle subject round watch container ready =
    let since = get_or_insert watch.running_since round.judged in
    if ready && leb (stable_required subject.policy) ((round.judged - since) / 1000)
    then passed (record {
      elapsed_seconds = round.judged / 1000;
      restart_count = container.restart_count;
      exit_code = container.exit_code;
      verified_container = container;
    })
    else if round.cancelled_asleep
    then failed HealthError.interrupted
    else if leb subject.deadline round.woken
    then failed HealthError.timeout
    else again (record watch { running_since = if ready then some since else none })

-- The judgement of an exact container.
unfoldable pub judge : Subject → Round → Watch → ContainerRecord → Verdict
unfolding rebase policy_ready settle
judge subject round watch container =
    let base = rebase watch container in
    if option_eq same container.started_at base.baseline_started
      && option_eq int_eq container.restart_count base.baseline_restarts
    then fallible (policy_ready container subject.policy) (settle subject round base container)
    else failed HealthError.restarted

module _ (uuid : UuidCrate) where
  unfoldable pub round_verdict : Subject → Watch → Round → Verdict
  unfolding inspect_before judge
  round_verdict subject watch round =
      fallible (inspect_before uuid subject round) (judge subject round watch)

  -- The loop over the rounds that are given; `none` while it goes on after the last of them.
  unfoldable pub watch_rounds :
      Subject → Watch → List Round → Option (Result HealthError HealthResult)
  unfolding round_verdict
  watch_rounds subject watch [] = none
  watch_rounds subject watch (round ∷ rounds) = elim (round_verdict subject watch round) [
    | passed result ↦ some (ok result)
    | failed error ↦ some (err error)
    | again next ↦ watch_rounds subject next rounds
  ]

  -- The first round is the inspection before the loop, of which only the inspection counts.
  unfoldable pub verify : Subject → Round → List Round → Option (Result HealthError HealthResult)
  unfolding inspect_before watch_rounds watch_from
  verify subject first rounds = elim (inspect_before uuid subject first) [
    | err error ↦ some (err error)
    | ok container ↦ watch_rounds subject (watch_from container) rounds
  ]
