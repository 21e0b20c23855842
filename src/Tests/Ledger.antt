-- ===== src/Tests/Ledger.antt =====
-- The deployment ledger (src/deploy/ledger.rs) on a small database.
use solodock.Base.Table.{count_where}
use solodock.Database.Status.{is_open, is_terminal}
use solodock.Base.{
  ◌==◌, ◌&&◌, ◌⊎◌, if◌then◌else◌, ◌<◌, map, List, ◌≡◌, refl, some, none, [], ◌∷◌, arith, ok, err,
  true,
}
use solodock.Database.{
  LedgerError, Time, Deployment, DeploymentStatus, DeploymentPhase, DeploymentTrigger, Database,
  empty_database,
}
use solodock.Deploy.Ledger.{
  add_queued, interrupt, has_id, active_count, interrupt_nonterminal, mark_effect_observed,
  transition, attempt, Call, step, start_effect, run, new_deployment, mark_effect_started, get,
  create,
}
use solodock.Deploy.Ledger.Finality.{run-final, Holds}
use solodock.Deploy.Ledger.Uniqueness.{is_open_of, run-IsUnique, IsUnique}
use solodock.Deploy.Ledger.Effects.{mark_effect_started_once}
use solodock.Deploy.Ledger.Numbering.{run-numbered, Counts, seqs}
use solodock.Deploy.Ledger.Audit.{audits, run-IsAudited, IsAudited}
use solodock.Deploy.Ledger.Moved.{Moved}
use solodock.Deploy.Ledger.Branches.{
  create_outcome, transition_outcome, interrupt_nonterminal_outcome,
}

abbrev queued_row : Deployment
unfolding new_deployment
queued_row = new_deployment 7 1 DeploymentTrigger.manual 3 none none none 9 100

abbrev applying_row : Deployment
applying_row = record queued_row {
  status = DeploymentStatus.running;
  phase = DeploymentPhase.applying;
}

abbrev polled_row : Deployment
polled_row = record applying_row {
  trigger = DeploymentTrigger.poll;
  scheduled_target_key = some "target";
  poll_generation = some "generation";
}

abbrev ended_row : Deployment
ended_row = record queued_row {
  status = DeploymentStatus.succeeded;
  phase = DeploymentPhase.terminal;
}

abbrev holding : Deployment → Database
holding row = record empty_database { deployments = row ∷ [] }

abbrev deployed : List (Time × Call)
deployed =
    (100, Call.creates 7 1 DeploymentTrigger.manual 3 none none none 9)
    ∷ (101, Call.transitions_to 7 DeploymentPhase.applying DeploymentStatus.running "ok" none)
    ∷ (102, Call.starts_effect 7 none none)
    ∷ (103, Call.observes_effect 7 "container")
    ∷ (104, Call.transitions_to 7 DeploymentPhase.terminal DeploymentStatus.succeeded "ok" none)
    ∷ (105, Call.interrupts)
    ∷ []

empty-IsUnique : IsUnique []
empty-IsUnique = record { one_row = λ id. omega arith; one_open = λ app. omega arith }

holding-IsUnique : (row : Deployment) → IsUnique (row ∷ [])
holding-IsUnique row = record { one_row = λ id. ground arith; one_open = λ app. ground arith }

run-IsUnique_example : IsUnique (run empty_database deployed).deployments
run-IsUnique_example = run-IsUnique deployed empty_database empty-IsUnique

run-final_example : Holds 7 ended_row (run (holding ended_row) deployed)
unfolding get is_terminal new_deployment
run-final_example = run-final 7 ended_row deployed (holding ended_row) refl refl

mark_effect_started_once_example :
    mark_effect_started 7 none none 300
      (run (holding (start_effect (some "old") none 200 applying_row)) deployed)
    ≡ err LedgerError.state_changed
unfolding mark_effect_started new_deployment
mark_effect_started_once_example =
    mark_effect_started_once 7 (some "old") none 200 (holding applying_row)
      (holding (start_effect (some "old") none 200 applying_row)) deployed none none 300
      (holding-IsUnique applying_row) refl

run-numbered_example : Counts 1 (seqs 7 (run empty_database deployed).transitions)
run-numbered_example = run-numbered deployed 7

run-IsAudited_example : IsAudited 7 (run empty_database deployed)
run-IsAudited_example = run-IsAudited 7 deployed

-- The whole deployment succeeds, with three transitions and one audit event.
deployed_statuses :
    (map (λ (r : Deployment). r.status) (run empty_database deployed).deployments
      ≡ DeploymentStatus.succeeded ∷ [])
    × (seqs 7 (run empty_database deployed).transitions ≡ 1 ∷ 2 ∷ 3 ∷ [])
    × (audits 7 (run empty_database deployed) ≡ 1)
unfolding run step attempt create transition mark_effect_started mark_effect_observed
    interrupt_nonterminal is_terminal is_open
deployed_statuses = (refl, refl, refl)

create_outcome_example :
    let row = new_deployment 8 2 DeploymentTrigger.manual 3 none none none 9 100 in
    let db = holding applying_row in
    let made = create 8 2 DeploymentTrigger.manual 3 none none none 9 100 db in
    ((made ≡ err LedgerError.busy)
      × ((0 < count_where (has_id 8) db.deployments)
          ⊎ (0 < count_where (is_open_of 2) db.deployments)))
    ⊎ ((made ≡ ok (add_queued row db, row))
        × (get 8 (add_queued row db) ≡ some row)
        × (count_where (has_id 8) db.deployments ≡ 0)
        × (count_where (is_open_of 2) db.deployments ≡ 0))
create_outcome_example =
    create_outcome 8 2 DeploymentTrigger.manual 3 none none none 9 100 (holding applying_row)

transition_outcome_example :
    let db = holding polled_row in
    let moved =
      transition 7 DeploymentPhase.terminal DeploymentStatus.failed "error" (some "PULL") 120 db in
    ((count_where (λ (r : Deployment). r.id == 7 && is_open r.status) db.deployments ≡ 0)
      × (moved ≡ err LedgerError.state_changed))
    ⊎ ((row : Deployment) × (next : Database) × (get 7 db ≡ some row)
        × (is_open row.status ≡ true)
        × (moved ≡ ok next)
        × Moved 7 DeploymentPhase.terminal DeploymentStatus.failed "error"
            (some "PULL")
            120
            row
            db
            next)
transition_outcome_example =
    transition_outcome 7 DeploymentPhase.terminal DeploymentStatus.failed "error" (some "PULL") 120
      (holding polled_row) (holding-IsUnique polled_row)

interrupt_nonterminal_outcome_example :
    let (next, changed) = interrupt_nonterminal 500 (holding applying_row) in
    (active_count next ≡ 0)
    × (changed ≡ active_count (holding applying_row))
    × (get 7 next
        ≡ some (if is_open applying_row.status then interrupt 500 applying_row else applying_row))
unfolding get new_deployment
interrupt_nonterminal_outcome_example =
    interrupt_nonterminal_outcome 500 (holding applying_row) 7 applying_row refl
