-- ===== src/Deploy/Ledger/Journal.antt =====
-- The effect journal of a deployment: what is recorded before and after Docker is changed, for the
-- candidate and for the rollback (src/deploy/ledger.rs).
use solodock.Base.{Bool, true, false, ◌&&◌, String, Option, none, some, Result}
use solodock.Database.{Uuid, Time, Database, Deployment, DeploymentPhase, EffectPhase, LedgerError}
use solodock.Deploy.Ledger.Rows.{is_running_row}
use solodock.Deploy.Ledger.Transactions.{update_one}

abbrev pub is_applying : DeploymentPhase → Bool
is_applying DeploymentPhase.applying = true
is_applying _ = false

-- `effect_phase='started'`, false of NULL.
abbrev pub is_started : Option EffectPhase → Bool
is_started (some EffectPhase.started) = true
is_started _ = false

abbrev pub is_null {ℓ} : {A : Type ℓ} → Option A → Bool
is_null none = true
is_null (some a) = false

unfoldable pub can_start_effect : Uuid → Deployment → Bool
unfolding is_running_row
can_start_effect id row =
    is_running_row id row && (is_applying row.phase && is_null row.effect_phase)

unfoldable pub start_effect : Option String → Option String → Time → Deployment → Deployment
start_effect pre_container_id pre_started_at now row = record row {
  effect_phase = some EffectPhase.started;
  pre_container_id = pre_container_id;
  pre_started_at = pre_started_at;
  updated_at = now;
}

unfoldable pub mark_effect_started :
    Uuid → Option String → Option String → Time → Database → Result LedgerError Database
unfolding can_start_effect start_effect
mark_effect_started id pre_container_id pre_started_at now =
    update_one (can_start_effect id) (start_effect pre_container_id pre_started_at now)

unfoldable pub can_observe_effect : Uuid → Deployment → Bool
unfolding is_running_row
can_observe_effect id row = is_running_row id row && is_started row.effect_phase

unfoldable pub observe_effect : String → Time → Deployment → Deployment
observe_effect post_container_id now row = record row {
  effect_phase = some EffectPhase.observed;
  post_container_id = some post_container_id;
  updated_at = now;
}

unfoldable pub mark_effect_observed : Uuid → String → Time → Database → Result LedgerError Database
unfolding can_observe_effect observe_effect
mark_effect_observed id post_container_id now =
    update_one (can_observe_effect id) (observe_effect post_container_id now)

unfoldable pub can_start_rollback : Uuid → Deployment → Bool
unfolding is_running_row
can_start_rollback id row = is_running_row id row && is_null row.rollback_effect_phase

unfoldable pub start_rollback : String → Time → Deployment → Deployment
start_rollback pre_container_id now row = record row {
  rollback_effect_phase = some EffectPhase.started;
  rollback_pre_container_id = some pre_container_id;
  updated_at = now;
}

unfoldable pub mark_rollback_started : Uuid → String → Time → Database → Result LedgerError Database
unfolding can_start_rollback start_rollback
mark_rollback_started id pre_container_id now =
    update_one (can_start_rollback id) (start_rollback pre_container_id now)

unfoldable pub can_observe_rollback : Uuid → Deployment → Bool
unfolding is_running_row
can_observe_rollback id row = is_running_row id row && is_started row.rollback_effect_phase

unfoldable pub observe_rollback : Option String → Time → Deployment → Deployment
observe_rollback post_container_id now row = record row {
  rollback_effect_phase = some EffectPhase.observed;
  rollback_post_container_id = post_container_id;
  updated_at = now;
}

unfoldable pub mark_rollback_observed :
    Uuid → Option String → Time → Database → Result LedgerError Database
unfolding can_observe_rollback observe_rollback
mark_rollback_observed id post_container_id now =
    update_one (can_observe_rollback id) (observe_rollback post_container_id now)
