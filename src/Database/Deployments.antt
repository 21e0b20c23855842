-- ===== src/Database/Deployments.antt =====
-- The rows of `deployments` and `deployment_transitions`, and the enumerations that their text
-- columns hold (src/deploy/ledger.rs).
use solodock.Base.{ℕ, String, Option}

-- A UUID is its 128-bit value.
abbrev pub Uuid : Type 0
Uuid = ℕ

-- A stored time is the place of its text in the order in which SQLite compares texts.
abbrev pub Time : Type 0
Time = ℕ

pub data DeploymentTrigger : Type 0 where
  manual rollback poll : DeploymentTrigger

pub data DeploymentStatus : Type 0 where
  queued running succeeded no_op failed rolled_back needs_attention interrupted : DeploymentStatus

pub data DeploymentPhase : Type 0 where
  queued resolving preparing pulling applying verifying committing rolling_back : DeploymentPhase
  verifying_rollback terminal : DeploymentPhase

pub data LedgerError : Type 0 where
  busy state_changed corrupt row_not_found : LedgerError

-- The columns `effect_phase` and `rollback_effect_phase`, NULL or one of two texts.
pub data EffectPhase : Type 0 where
  started observed : EffectPhase

pub record Deployment : Type 0 where
  pub id : Uuid
  pub app_id : Uuid
  pub trigger : DeploymentTrigger
  pub requested_revision : Uuid
  pub from_release_id : Option Uuid
  pub expected_pending_release_id : Option Uuid
  pub expected_actual_release_id : Option Uuid
  pub expected_actual_container_id : Option String
  pub predecessor_runtime_release_id : Option Uuid
  pub candidate_release_id : Option Uuid
  pub rollback_target_release_id : Option Uuid
  pub rollback_of_deployment_id : Option Uuid
  pub status : DeploymentStatus
  pub phase : DeploymentPhase
  pub source_image_ref : Option String
  pub source_descriptor_digest : Option String
  pub manifest_digest : Option String
  pub platform : Option String
  pub scheduled_source_image_ref : Option String
  pub scheduled_source_descriptor_digest : Option String
  pub scheduled_manifest_digest : Option String
  pub scheduled_index_digest : Option String
  pub scheduled_platform_os : Option String
  pub scheduled_platform_architecture : Option String
  pub scheduled_platform_variant : Option String
  pub scheduled_local_image_id : Option String
  pub scheduled_repository : Option String
  pub scheduled_target_key : Option String
  pub poll_generation : Option String
  pub error_class : Option String
  pub error_code : Option String
  pub health_policy : Option String
  pub health_result : Option String
  pub effect_phase : Option EffectPhase
  pub pre_container_id : Option String
  pub pre_started_at : Option String
  pub post_container_id : Option String
  pub rollback_effect_phase : Option EffectPhase
  pub rollback_pre_container_id : Option String
  pub rollback_post_container_id : Option String
  pub request_id : Uuid
  pub created_at : Time
  pub started_at : Option Time
  pub completed_at : Option Time
  pub updated_at : Time

pub record DeploymentTransition : Type 0 where
  pub deployment_id : Uuid
  pub seq : ℕ
  pub phase : DeploymentPhase
  pub outcome : String
  pub code : Option String
  pub created_at : Time
