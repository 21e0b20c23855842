-- ===== src/Deploy/Ledger/Change.antt =====
-- What one call of the ledger can do to the table of deployments: nothing, the insert of a queued
-- row that violates no unique constraint, or an update that respects the life of a deployment.
use solodock.Base.{
  ℕ, ◌==◌, Option-cases, ◌≤◌, ◌≡◌, refl, Bool, true, false, Option, none, some, List, [], ◌∷◌, ◌++◌,
  arith, Bool-cases, inl, inr, after,
}
use solodock.Base.Table.{update_where, count_where, find_where}
use solodock.Database.{Uuid, Time, Database, Deployment, DeploymentStatus, EffectPhase}
use solodock.Database.Status.{is_terminal, is_open}
use solodock.Deploy.Ledger.Rows.{
  has_id, is_running_row, is_open_row, violates_unique, new_deployment, advance, set_resolved,
  set_health_columns, interrupt, row_is_open,
}
use solodock.Deploy.Ledger.Transactions.{
  create, record_transition, conclude, transition, update_one, resolved, set_health,
  interrupt_nonterminal,
}
use solodock.Deploy.Ledger.Journal.{
  mark_effect_started, mark_effect_observed, mark_rollback_started, mark_rollback_observed,
  can_start_effect, start_effect, can_observe_effect, observe_effect, can_start_rollback,
  start_rollback, can_observe_rollback, observe_rollback,
}
use solodock.Deploy.Ledger.Calls.{
  Call, creates, transitions_to, resolves, sets_health, starts_effect, observes_effect,
  starts_rollback, observes_rollback, interrupts, step,
}

-- A row without the three columns that `set_health` writes at any time.
abbrev pub sealed : Deployment → Deployment
sealed row = record row { health_policy = none; health_result = none; updated_at = 0 }

-- How far an effect has been journalled.
abbrev pub effect_rank : Option EffectPhase → ℕ
effect_rank none = 0
effect_rank (some EffectPhase.started) = 1
effect_rank (some EffectPhase.observed) = 2

-- What holds of the columns `f` sets on the rows that `p` selects.
pub record IsSound (p : Deployment → Bool) (f : Deployment → Deployment) : Type 0 where
  pub keeps_id : (r : Deployment) → (f r).id ≡ r.id
  pub keeps_app : (r : Deployment) → (f r).app_id ≡ r.app_id
  pub seals : (r : Deployment) → p r ≡ true → is_open r.status ≡ false → sealed (f r) ≡ sealed r
  pub opens_none :
      (r : Deployment) → p r ≡ true → is_open (f r).status ≡ true → is_open r.status ≡ true
  pub effect_grows :
      (r : Deployment) → p r ≡ true → effect_rank r.effect_phase ≤ effect_rank (f r).effect_phase
  pub rollback_grows :
      (r : Deployment)
      → p r ≡ true
      → effect_rank r.rollback_effect_phase ≤ effect_rank (f r).rollback_effect_phase

pub data Change (rows next : List Deployment) : Type 0 where
  kept : next ≡ rows → Change rows next
  inserted :
      (row : Deployment)
      → count_where (violates_unique row.id row.app_id) rows ≡ 0
      → row.status ≡ DeploymentStatus.queued
      → next ≡ rows ++ row ∷ []
      → Change rows next
  updated :
      (p : Deployment → Bool) (f : Deployment → Deployment)
      → IsSound p f
      → next ≡ update_where p f rows
      → Change rows next

advance-IsSound :
    (id : Uuid) (phase : _) (status : _) (code : _) (now : Time)
    → IsSound (is_open_row id) (advance phase status code now)
unfolding is_open_row advance is_open
advance-IsSound id phase status code now = record {
  keeps_id = λ r. refl;
  keeps_app = λ r. refl;
  seals = λ r h k. ground arith;
  opens_none = λ r h k. ground arith;
  effect_grows = λ r h. omega arith;
  rollback_grows = λ r h. omega arith;
}

set_resolved-IsSound :
    (id candidate : Uuid) (predecessor : _) (source descriptor manifest platform : _) (now : Time)
    → IsSound
        (is_running_row id)
        (set_resolved candidate predecessor source descriptor manifest platform now)
unfolding is_running_row set_resolved is_open
set_resolved-IsSound id c p s d m f now = record {
  keeps_id = λ r. refl;
  keeps_app = λ r. refl;
  seals = λ r h k. ground arith;
  opens_none = λ r h k. k;
  effect_grows = λ r h. omega arith;
  rollback_grows = λ r h. omega arith;
}

set_health-IsSound :
    (id : Uuid) (policy outcome : _) (now : Time)
    → IsSound (has_id id) (set_health_columns policy outcome now)
unfolding set_health_columns
set_health-IsSound id policy outcome now = record {
  keeps_id = λ r. refl;
  keeps_app = λ r. refl;
  seals = λ r h k. refl;
  opens_none = λ r h k. k;
  effect_grows = λ r h. omega arith;
  rollback_grows = λ r h. omega arith;
}

start_effect-IsSound :
    (id : Uuid) (container started_at : _) (now : Time)
    → IsSound (can_start_effect id) (start_effect container started_at now)
unfolding can_start_effect start_effect is_open
start_effect-IsSound id c s now = record {
  keeps_id = λ r. refl;
  keeps_app = λ r. refl;
  seals = λ r h k. ground arith;
  opens_none = λ r h k. k;
  effect_grows = λ r h. ground arith;
  rollback_grows = λ r h. omega arith;
}

observe_effect-IsSound :
    (id : Uuid) (container : _) (now : Time)
    → IsSound (can_observe_effect id) (observe_effect container now)
unfolding can_observe_effect observe_effect is_open
observe_effect-IsSound id c now = record {
  keeps_id = λ r. refl;
  keeps_app = λ r. refl;
  seals = λ r h k. ground arith;
  opens_none = λ r h k. k;
  effect_grows = λ r h. ground arith;
  rollback_grows = λ r h. omega arith;
}

start_rollback-IsSound :
    (id : Uuid) (container : _) (now : Time)
    → IsSound (can_start_rollback id) (start_rollback container now)
unfolding can_start_rollback start_rollback is_open
start_rollback-IsSound id c now = record {
  keeps_id = λ r. refl;
  keeps_app = λ r. refl;
  seals = λ r h k. ground arith;
  opens_none = λ r h k. k;
  effect_grows = λ r h. omega arith;
  rollback_grows = λ r h. ground arith;
}

observe_rollback-IsSound :
    (id : Uuid) (container : _) (now : Time)
    → IsSound (can_observe_rollback id) (observe_rollback container now)
unfolding can_observe_rollback observe_rollback is_open
observe_rollback-IsSound id c now = record {
  keeps_id = λ r. refl;
  keeps_app = λ r. refl;
  seals = λ r h k. ground arith;
  opens_none = λ r h k. k;
  effect_grows = λ r h. omega arith;
  rollback_grows = λ r h. ground arith;
}

interrupt-IsSound : (now : Time) → IsSound row_is_open (interrupt now)
unfolding interrupt is_open
interrupt-IsSound now = record {
  keeps_id = λ r. refl;
  keeps_app = λ r. refl;
  seals = λ r h k. ground arith;
  opens_none = λ r h k. h;
  effect_grows = λ r h. omega arith;
  rollback_grows = λ r h. omega arith;
}

update_one-Change :
    (p : Deployment → Bool) (f : Deployment → Deployment) (db : Database)
    → IsSound p f
    → Change db.deployments (after db (update_one p f db)).deployments
update_one-Change p f db sound = elim (Bool-cases (count_where p db.deployments == 1)) [
  | inl e ↦ rw e (updated p f sound refl)
  | inr e ↦ rw e (kept refl)
]

create-Change :
    (id app : Uuid) (trigger : _) (revision : Uuid) (from target of : Option Uuid) (request : Uuid)
    (now : Time) (db : Database)
    → Change db.deployments
        (step db (now, creates id app trigger revision from target of request)).deployments
unfolding step create new_deployment
create-Change id app t r f g o q now db =
    elim (Bool-cases (count_where (violates_unique id app) db.deployments == 0)) [
      | inl e ↦
          elim (Option-cases (
            find_where (has_id id)
              (db.deployments ++ new_deployment id app t r f g o q now ∷ []))) [
                | inl missing ↦ rw (e, missing) (kept refl)
                | inr (row, found) ↦ rw (e, found) (inserted _ (ground arith) refl refl)
              ]
      | inr e ↦ rw e (kept refl)
    ]

conclude-Change :
    (id : Uuid) (status : _) (code : _) (now : Time) (db next : Database)
    → Change db.deployments next.deployments
    → Change db.deployments (after db (conclude id status code now next)).deployments
unfolding conclude
conclude-Change id status code now db next change =
    elim (Option-cases (find_where (has_id id) next.deployments)) [
      | inl missing ↦ rw missing (kept refl)
      | inr (row, found) ↦ rw found change
    ]

transition-Change :
    (id : Uuid) (phase : _) (status : _) (outcome : _) (code : _) (now : Time) (db : Database)
    → Change db.deployments (after db (transition id phase status outcome code now db)).deployments
unfolding transition
transition-Change id phase status outcome code now db =
    let next = record_transition id phase status outcome code now db in
    let change : Change db.deployments next.deployments =
      updated _ _ (advance-IsSound id phase status code now) refl in
    elim (Bool-cases (count_where (is_open_row id) db.deployments == 1)) [
      | inl e ↦ elim (Bool-cases (is_terminal status)) [
        | inl t ↦ rw (e, t) (conclude-Change id status code now db next change)
        | inr o ↦ rw (e, o) change
      ]
      | inr e ↦ rw e (kept refl)
    ]

-- Every call changes the table of deployments in one of the three ways.
pub step-Change :
    (db : Database) (now : Time) (c : Call) → Change db.deployments (step db (now, c)).deployments
unfolding step resolved set_health mark_effect_started mark_effect_observed mark_rollback_started
    mark_rollback_observed interrupt_nonterminal
step-Change db now (creates id app t r f g o q) = create-Change id app t r f g o q now db
step-Change db now (transitions_to id p s o c) = transition-Change id p s o c now db
step-Change db now (resolves id c p s d m f) =
    update_one-Change _ _ db (set_resolved-IsSound id c p s d m f now)
step-Change db now (sets_health id p r) = updated _ _ (set_health-IsSound id p r now) refl
step-Change db now (starts_effect id c s) =
    update_one-Change _ _ db (start_effect-IsSound id c s now)
step-Change db now (observes_effect id c) =
    update_one-Change _ _ db (observe_effect-IsSound id c now)
step-Change db now (starts_rollback id c) =
    update_one-Change _ _ db (start_rollback-IsSound id c now)
step-Change db now (observes_rollback id c) =
    update_one-Change _ _ db (observe_rollback-IsSound id c now)
step-Change db now interrupts = updated _ _ (interrupt-IsSound now) refl
