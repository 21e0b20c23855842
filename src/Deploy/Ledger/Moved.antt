-- ===== src/Deploy/Ledger/Moved.antt =====
-- What `transition` writes (src/deploy/ledger.rs).
use solodock.Base.{
  Bool-cases, ◌≡◌, refl, ◌⊎◌, inl, inr, ◌==◌, ◌&&◌, text_eq, String, Option, some, none, List, [],
  ◌∷◌, true, false, ◌++◌, ◌+◌, arith, if◌then◌else◌, coalesce, Option-cases,
}
use solodock.Base.Table.{update_where, update_where_none, count_where}
use solodock.Database.{
  PollState, PollOutcome, DeploymentTrigger, DeploymentStatus, DeploymentPhase, Deployment, Uuid,
  Time, Database, AuditMetadata,
}
use solodock.Database.Status.{is_terminal, is_open}
use solodock.Database.Status
use solodock.Deploy.Ledger.Rows.{
  has_generation, suppress_row, suppresses, is_poll, max_seq, is_running, advance,
}
use solodock.Deploy.Ledger.Transactions.{suppress_target, get}

-- What a transition of `row` to `status` does to the poll states: a polled deployment that fails, rolls back or
-- needs attention suppresses its target in the row of its application and generation, and any other
-- leaves them.
pub data Suppression (row : Deployment) (status : DeploymentStatus) (now : Time)
    (before after : List PollState) : Type 0 where
  not_polled :
      (row.trigger ≡ DeploymentTrigger.poll → ⊥)
      → after ≡ before
      → Suppression row status now before after
  not_failed :
      (status ≡ DeploymentStatus.failed → ⊥)
      → (status ≡ DeploymentStatus.rolled_back → ⊥)
      → (status ≡ DeploymentStatus.needs_attention → ⊥)
      → after ≡ before
      → Suppression row status now before after
  no_target :
      row.scheduled_target_key ≡ none → after ≡ before → Suppression row status now before after
  no_generation :
      row.poll_generation ≡ none → after ≡ before → Suppression row status now before after
  suppressed :
      (target generation : String)
      → row.trigger ≡ DeploymentTrigger.poll
      → (status ≡ DeploymentStatus.failed)
        ⊎ ((status ≡ DeploymentStatus.rolled_back) ⊎ (status ≡ DeploymentStatus.needs_attention))
      → row.scheduled_target_key ≡ some target
      → row.poll_generation ≡ some generation
      → after
        ≡ update_where
            (λ s. s.app_id == row.app_id && text_eq s.generation generation)
            (λ s. record s {
              suppressed_target_key = some target;
              suppressed_deployment_id = some row.id;
              last_outcome = PollOutcome.suppressed_failed_target;
              updated_at = now;
            })
            before
      → Suppression row status now before after

no_rows : (app : Uuid) (states : List PollState) → count_where (has_generation app none) states ≡ 0
unfolding has_generation
no_rows app [] = refl
no_rows app (s ∷ ss) = no_rows app ss

is_poll_sound :
    (trigger : DeploymentTrigger) → is_poll trigger ≡ true → trigger ≡ DeploymentTrigger.poll
is_poll_sound trigger h = ground arith

suppresses_sound :
    (status : DeploymentStatus)
    → suppresses status ≡ true
    → (status ≡ DeploymentStatus.failed)
      ⊎ ((status ≡ DeploymentStatus.rolled_back) ⊎ (status ≡ DeploymentStatus.needs_attention))
suppresses_sound DeploymentStatus.failed h = inl refl
suppresses_sound DeploymentStatus.rolled_back h = inr (inl refl)
suppresses_sound DeploymentStatus.needs_attention h = inr (inr refl)
suppresses_sound DeploymentStatus.queued h = absurd cc
suppresses_sound DeploymentStatus.running h = absurd cc
suppresses_sound DeploymentStatus.succeeded h = absurd cc
suppresses_sound DeploymentStatus.no_op h = absurd cc
suppresses_sound DeploymentStatus.interrupted h = absurd cc

-- `suppress_target` does one of these.
pub suppress_target-Suppression :
    (row : Deployment) (status : DeploymentStatus) (now : Time) (states : List PollState)
    → Suppression row status now states (suppress_target row status now states)
unfolding suppress_target has_generation suppress_row
suppress_target-Suppression row status now states = elim (Option-cases row.scheduled_target_key) [
  | inl e ↦ Suppression.no_target e (rw e refl)
  | inr (target, e) ↦ elim (Bool-cases (is_poll row.trigger)) [
    | inr unpolled ↦
        Suppression.not_polled (λ h. let h' = rw h at unpolled in absurd cc) (rw (e, unpolled) refl)
    | inl polled ↦ elim (Bool-cases (suppresses status)) [
      | inr fine ↦
          Suppression.not_failed (λ h. let h' = rw h at fine in absurd cc)
            (λ h. let h' = rw h at fine in absurd cc) (λ h. let h' = rw h at fine in absurd cc)
            (rw (e, polled, fine) refl)
      | inl bad ↦ elim (Option-cases row.poll_generation) [
        | inl g ↦ Suppression.no_generation g (
            rw (e, polled, bad, g)
              (update_where_none (has_generation row.app_id none) (suppress_row target row.id now)
                states (no_rows row.app_id states)))
        | inr (generation, g) ↦
            Suppression.suppressed target generation (is_poll_sound row.trigger polled)
              (suppresses_sound status bad) e g (rw (e, polled, bad, g) refl)
      ]
    ]
  ]
]

-- A status that is not terminal leaves the poll states.
pub open-Suppression :
    (row : Deployment) (status : DeploymentStatus) (now : Time) (states : List PollState)
    → is_terminal status ≡ false
    → Suppression row status now states states
unfolding is_terminal
open-Suppression row status now states o =
    Suppression.not_failed (λ h. let h' = rw h at o in absurd cc)
      (λ h. let h' = rw h at o in absurd cc) (λ h. let h' = rw h at o in absurd cc) refl

-- The database after the transition of an open row.
pub record Moved (id : Uuid) (phase : DeploymentPhase) (status : DeploymentStatus)
    (outcome : String) (code : Option String) (now : Time) (row : Deployment)
    (before after : Database) : Type 0 where
  pub found :
      get id after
      ≡ some (record row {
        phase = phase;
        status = status;
        started_at = coalesce row.started_at (if is_running status then some now else none);
        completed_at = if is_terminal status then some now else row.completed_at;
        error_code = code;
        updated_at = now;
      })
  pub deployments :
      after.deployments
      ≡ update_where
          (λ r. r.id == id && is_open r.status)
          (advance phase status code now)
          before.deployments
  pub transitions :
      after.transitions
      ≡ before.transitions
        ++ record {
          deployment_id = id;
          seq = max_seq id before.transitions + 1;
          phase = phase;
          outcome = outcome;
          code = code;
          created_at = now;
        }
          ∷ []
  pub audit_events : after.audit_events ≡ (
      if is_terminal status
      then before.audit_events
        ++ record {
          actor = "system";
          request_id = row.request_id;
          action = "deployment_terminal";
          target_id = row.app_id;
          outcome = Status.as_str status;
          metadata = AuditMetadata.deployment row.id row.trigger status code;
          created_at = now;
        }
          ∷ []
      else before.audit_events)
  pub poll_states : Suppression row status now before.poll_states after.poll_states
  pub replays : after.replays ≡ before.replays
