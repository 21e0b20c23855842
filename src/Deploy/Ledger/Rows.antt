-- ===== src/Deploy/Ledger/Rows.antt =====
-- The rows that the statements of the ledger select, and the columns that they set
-- (src/deploy/ledger.rs).
use solodock.Base.{
  ℕ, String, Bool, true, false, ◌&&◌, ◌||◌, Option, none, some, List, [], ◌∷◌, max, ◌==◌,
  if◌then◌else◌, coalesce, text_eq,
}
use solodock.Database.{
  Uuid, Time, Deployment, DeploymentTransition, DeploymentTrigger, DeploymentStatus,
  DeploymentPhase, PollState, PollOutcome,
}
use solodock.Database.Status.{is_terminal, is_open}

-- `WHERE id=?`.
abbrev pub has_id : Uuid → Deployment → Bool
has_id id row = row.id == id

-- `WHERE id=? AND status IN ('queued','running')`.
unfoldable pub is_open_row : Uuid → Deployment → Bool
is_open_row id row = row.id == id && is_open row.status

abbrev pub is_running : DeploymentStatus → Bool
is_running DeploymentStatus.running = true
is_running _ = false

-- `WHERE id=? AND status='running'`.
unfoldable pub is_running_row : Uuid → Deployment → Bool
is_running_row id row = row.id == id && is_running row.status

-- An insert of `row` violates the primary key or `deployments_one_nonterminal_per_app`. (The index
-- `deployments_poll_target` adds nothing: it is about open rows of one application too.)
unfoldable pub violates_unique : Uuid → Uuid → Deployment → Bool
violates_unique id app_id row = row.id == id || (row.app_id == app_id && is_open row.status)

-- The row that `create` inserts; the columns that the statement leaves out are NULL.
unfoldable pub new_deployment :
    Uuid
    → Uuid
    → DeploymentTrigger
    → Uuid
    → Option Uuid
    → Option Uuid
    → Option Uuid
    → Uuid
    → Time
    → Deployment
new_deployment id app_id trigger revision from rollback_target rollback_of request_id now = record {
  id = id;
  app_id = app_id;
  trigger = trigger;
  requested_revision = revision;
  from_release_id = from;
  expected_pending_release_id = none;
  expected_actual_release_id = none;
  expected_actual_container_id = none;
  predecessor_runtime_release_id = none;
  candidate_release_id = none;
  rollback_target_release_id = rollback_target;
  rollback_of_deployment_id = rollback_of;
  status = DeploymentStatus.queued;
  phase = DeploymentPhase.queued;
  source_image_ref = none;
  source_descriptor_digest = none;
  manifest_digest = none;
  platform = none;
  scheduled_source_image_ref = none;
  scheduled_source_descriptor_digest = none;
  scheduled_manifest_digest = none;
  scheduled_index_digest = none;
  scheduled_platform_os = none;
  scheduled_platform_architecture = none;
  scheduled_platform_variant = none;
  scheduled_local_image_id = none;
  scheduled_repository = none;
  scheduled_target_key = none;
  poll_generation = none;
  error_class = none;
  error_code = none;
  health_policy = none;
  health_result = none;
  effect_phase = none;
  pre_container_id = none;
  pre_started_at = none;
  post_container_id = none;
  rollback_effect_phase = none;
  rollback_pre_container_id = none;
  rollback_post_container_id = none;
  request_id = request_id;
  created_at = now;
  started_at = none;
  completed_at = none;
  updated_at = now;
}

-- `SELECT COALESCE(MAX(seq),0) … WHERE deployment_id=?`.
unfoldable pub max_seq : Uuid → List DeploymentTransition → ℕ
max_seq id [] = 0
max_seq id (t ∷ ts) = max (if t.deployment_id == id then t.seq else 0) (max_seq id ts)

-- The columns that `transition` sets.
unfoldable pub advance :
    DeploymentPhase → DeploymentStatus → Option String → Time → Deployment → Deployment
advance phase status code now row = record row {
  phase = phase;
  status = status;
  started_at = coalesce row.started_at (if is_running status then some now else none);
  completed_at = if is_terminal status then some now else row.completed_at;
  error_code = code;
  updated_at = now;
}

-- The outcomes that suppress a scheduled target.
abbrev pub suppresses : DeploymentStatus → Bool
suppresses DeploymentStatus.failed = true
suppresses DeploymentStatus.rolled_back = true
suppresses DeploymentStatus.needs_attention = true
suppresses _ = false

abbrev pub is_poll : DeploymentTrigger → Bool
is_poll DeploymentTrigger.poll = true
is_poll _ = false

-- `WHERE app_id=? AND generation=?`; a NULL generation matches no row.
unfoldable pub has_generation : Uuid → Option String → PollState → Bool
has_generation app_id none state = false
has_generation app_id (some generation) state =
    state.app_id == app_id && text_eq state.generation generation

unfoldable pub suppress_row : String → Uuid → Time → PollState → PollState
suppress_row target id now state = record state {
  suppressed_target_key = some target;
  suppressed_deployment_id = some id;
  last_outcome = PollOutcome.suppressed_failed_target;
  updated_at = now;
}

unfoldable pub set_resolved :
    Uuid → Option Uuid → String → String → String → String → Time → Deployment → Deployment
set_resolved candidate predecessor source descriptor manifest platform now row = record row {
  candidate_release_id = some candidate;
  predecessor_runtime_release_id = predecessor;
  source_image_ref = some source;
  source_descriptor_digest = some descriptor;
  manifest_digest = some manifest;
  platform = some platform;
  updated_at = now;
}

unfoldable pub set_health_columns : String → String → Time → Deployment → Deployment
set_health_columns policy result now row = record row {
  health_policy = some policy;
  health_result = some result;
  updated_at = now;
}

abbrev pub row_is_open : Deployment → Bool
row_is_open row = is_open row.status

unfoldable pub interrupt : Time → Deployment → Deployment
interrupt now row = record row {
  status = DeploymentStatus.interrupted;
  phase = DeploymentPhase.terminal;
  error_class = some "interrupted";
  error_code = some "DEPLOYMENT_INTERRUPTED";
  completed_at = some now;
  updated_at = now;
}

abbrev pub is_interrupted : DeploymentStatus → Bool
is_interrupted DeploymentStatus.interrupted = true
is_interrupted _ = false

abbrev pub is_needs_attention : DeploymentStatus → Bool
is_needs_attention DeploymentStatus.needs_attention = true
is_needs_attention _ = false
