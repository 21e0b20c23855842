-- ===== src/Tests/Health.antt =====
-- The verification of a container (src/deploy/health.rs) on a small run of rounds.
use solodock.Registry.Reference.{validate_digest}
use solodock.Registry.Identity.{matches_engine_image_id, matches_observation}
use solodock.Base.{
  ◌+◌, ◌++◌, ℕ, length, Result, List, ◌≡◌, refl, some, none, [], ◌∷◌, arith, ok, false,
}
use solodock.Base.Int.{pos}
use solodock.Base.Text.{strip_prefix, same, Text, lit}
use solodock.Docker.Models.{get, ContainerRecord, ContainerStatus, HealthStatus}
use solodock.Docker.Ownership.{label_is, UuidCrate, release_id_label}
use solodock.Deploy.Health.{
  stable_required, get_or_insert, settle, healthcheck_ready, running_ready, rebase, judge,
  inspect_exact, round_verdict, watch_from, watch_rounds, Subject, Round, HealthPolicy,
  HealthResult, HealthError, verify, policy_ready, inspect_before,
}
use solodock.Deploy.Health.Rounds.{verify-Passed, Passed}
use solodock.Deploy.Health.Deadline.{verify_ends}

abbrev manifest : Text
manifest = lit "sha256:aaaaaaaaaaaaaaaaaaaaaaaaaaaaaaaaaaaaaaaaaaaaaaaaaaaaaaaaaaaaaaaa"

abbrev uuid : UuidCrate
uuid = record { parse = λ s. some (length s); to_string = λ id. id ∷ [] }

abbrev container : ContainerRecord
container = record {
  id = lit "c";
  name = lit "app";
  labels = (release_id_label, 3 ∷ []) ∷ [];
  status = ContainerStatus.running;
  health = HealthStatus.no_check;
  exit_code = none;
  restart_count = some (pos 0);
  started_at = some (lit "t0");
  finished_at = none;
  configured_image_ref = some (lit "ref");
  image_id = some manifest;
  manifest_descriptor = none;
  ports = [];
  mounts = [];
  networks = [];
}

abbrev subject : Subject
subject = record {
  container_id = lit "c";
  release_id = 3;
  configured_image_ref = lit "ref";
  image_identity = record {
    manifest_digest = manifest;
    config_digest = manifest;
    platform = record { os = lit "linux"; architecture = lit "amd64"; variant = none };
  };
  policy = HealthPolicy.running 2;
  deadline = 4000;
}

abbrev round : ℕ → Round
round t = record {
  entered = t;
  cancelled = false;
  timed_out = false;
  answer = some container;
  judged = t;
  cancelled_asleep = false;
  woken = t + 1000;
}

abbrev rounds : List Round
rounds = round 1000 ∷ round 2000 ∷ round 3000 ∷ []

abbrev result : HealthResult
result = record {
  elapsed_seconds = 3;
  restart_count = some (pos 0);
  exit_code = none;
  verified_container = container;
}

passes : verify uuid subject (round 0) rounds ≡ some (ok result)
unfolding verify watch_rounds watch_from round_verdict inspect_before inspect_exact label_is same
    get matches_observation matches_engine_image_id validate_digest strip_prefix judge rebase
    policy_ready running_ready healthcheck_ready settle get_or_insert stable_required
passes = refl

verify-Passed_example :
    (c : ContainerRecord) × (inspect_before uuid subject (round 0) ≡ ok c)
    × Passed uuid subject c.restart_count result rounds
verify-Passed_example = verify-Passed uuid subject (round 0) rounds result passes

verify_ends_example :
    (r : Result HealthError HealthResult) × (verify uuid subject
        (round 0)
        (rounds ++ round 4000 ∷ [])
      ≡ some r)
verify_ends_example =
    verify_ends uuid subject (round 0) (rounds ++ round 4000 ∷ []) 1000
      (omega arith, (omega arith, (omega arith, (omega arith, tt)))) (omega arith) (omega arith)
