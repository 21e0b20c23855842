-- ===== src/Deploy/Ledger/Transactions.antt =====
-- The transactions of DeploymentLedger that create and advance a deployment (src/deploy/ledger.rs).
-- Each takes the database and the time of `OffsetDateTime::now_utc()`, and returns the database
-- that it commits, or the error on which it is rolled back.
use solodock.Base.{
  ℕ, ◌+◌, String, Bool, Option, none, some, List, [], ◌∷◌, ◌++◌, ◌&&◌, ◌==◌, if◌then◌else◌, Result,
  ok, ensure, ok_or, ◌>>=◌, ◌>>◌,
}
use solodock.Base.Table.{count_where, update_where, find_where}
use solodock.Database.{
  Uuid, Time, Database, Deployment, DeploymentTrigger, DeploymentStatus, DeploymentPhase,
  LedgerError, PollState, AuditEvent, AuditMetadata,
}
use solodock.Database.Status.{is_terminal}
use solodock.Database.Status
use solodock.Deploy.Ledger.Rows.{
  has_id, is_open_row, is_running_row, violates_unique, new_deployment, max_seq, advance,
  suppresses, is_poll, has_generation, suppress_row, set_resolved, set_health_columns, row_is_open,
  interrupt, is_interrupted, is_needs_attention,
}

-- The two inserts of `create`: the row, and its first transition.
unfoldable pub add_queued : Deployment → Database → Database
add_queued row db = record db {
  deployments = db.deployments ++ row ∷ [];
  transitions =
      db.transitions
      ++ record {
        deployment_id = row.id;
        seq = 1;
        phase = DeploymentPhase.queued;
        outcome = "scheduled";
        code = none;
        created_at = row.created_at;
      }
        ∷ [];
}

-- The transaction of `create`.
unfoldable pub insert_queued : Deployment → Database → Result LedgerError Database
unfolding violates_unique add_queued
insert_queued row db = do
  ensure (count_where (violates_unique row.id row.app_id) db.deployments == 0) LedgerError.busy
  ok (add_queued row db)

unfoldable pub suppress_target :
    Deployment → DeploymentStatus → Time → List PollState → List PollState
unfolding has_generation suppress_row
suppress_target row status now states = elim row.scheduled_target_key [
  | none ↦ states
  | some target ↦
      if is_poll row.trigger && suppresses status
      then update_where (has_generation row.app_id row.poll_generation)
          (suppress_row target row.id now) states
      else states
]

unfoldable pub terminal_audit : Deployment → DeploymentStatus → Option String → Time → AuditEvent
unfolding Status.as_str
terminal_audit row status code now = record {
  actor = "system";
  request_id = row.request_id;
  action = "deployment_terminal";
  target_id = row.app_id;
  outcome = Status.as_str status;
  metadata = AuditMetadata.deployment row.id row.trigger status code;
  created_at = now;
}

-- What `transition` does after the update when the status is terminal.
unfoldable pub conclude :
    Uuid → DeploymentStatus → Option String → Time → Database → Result LedgerError Database
unfolding terminal_audit suppress_target
conclude id status code now db = do
  row ← ok_or (find_where (has_id id) db.deployments) LedgerError.row_not_found
  ok (record db {
    audit_events = db.audit_events ++ terminal_audit row status code now ∷ [];
    poll_states = suppress_target row status now db.poll_states;
  })

-- The update of the row and the insert of the transition.
unfoldable pub record_transition :
    Uuid → DeploymentPhase → DeploymentStatus → String → Option String → Time → Database → Database
unfolding is_open_row advance max_seq
record_transition id phase status outcome code now db = record db {
  deployments = update_where (is_open_row id) (advance phase status code now) db.deployments;
  transitions =
      db.transitions
      ++ record {
        deployment_id = id;
        seq = max_seq id db.transitions + 1;
        phase = phase;
        outcome = outcome;
        code = code;
        created_at = now;
      }
        ∷ [];
}

unfoldable pub transition :
    Uuid
    → DeploymentPhase
    → DeploymentStatus
    → String
    → Option String
    → Time
    → Database
    → Result LedgerError Database
unfolding is_open_row record_transition conclude
transition id phase status outcome code now db = do
  ensure (count_where (is_open_row id) db.deployments == 1) LedgerError.state_changed
  let next = record_transition id phase status outcome code now db
  if is_terminal status then conclude id status code now next else ok next

-- `UPDATE deployments SET f WHERE p`, refused unless exactly one row changes.
abbrev pub update_one :
    (Deployment → Bool) → (Deployment → Deployment) → Database → Result LedgerError Database
update_one p f db = do
  ensure (count_where p db.deployments == 1) LedgerError.state_changed
  ok (record db { deployments = update_where p f db.deployments })

unfoldable pub resolved :
    Uuid
    → Uuid
    → Option Uuid
    → String
    → String
    → String
    → String
    → Time
    → Database
    → Result LedgerError Database
unfolding is_running_row set_resolved
resolved id candidate predecessor source descriptor manifest platform now =
    update_one (is_running_row id)
      (set_resolved candidate predecessor source descriptor manifest platform now)

-- No guard on the status, and no check of the rows affected.
unfoldable pub set_health : Uuid → String → String → Time → Database → Result LedgerError Database
unfolding set_health_columns
set_health id policy result now db = ok (record db {
  deployments = update_where (has_id id) (set_health_columns policy result now) db.deployments;
})

unfoldable pub get : Uuid → Database → Option Deployment
get id db = find_where (has_id id) db.deployments

-- `create` reads the committed row back.
unfoldable pub create :
    Uuid
    → Uuid
    → DeploymentTrigger
    → Uuid
    → Option Uuid
    → Option Uuid
    → Option Uuid
    → Uuid
    → Time
    → Database
    → Result LedgerError (Database × Deployment)
unfolding insert_queued get new_deployment
create id app_id trigger revision from rollback_target rollback_of request_id now db = do
  let queued =
      new_deployment id app_id trigger revision from rollback_target rollback_of request_id now
  next ← insert_queued queued db
  row ← ok_or (get id next) LedgerError.corrupt
  ok (next, row)

-- The database, and the number of rows that changed.
unfoldable pub interrupt_nonterminal : Time → Database → Database × ℕ
unfolding interrupt
interrupt_nonterminal now db = (
  record db { deployments = update_where row_is_open (interrupt now) db.deployments },
  count_where row_is_open db.deployments,
)

unfoldable pub active_count : Database → ℕ
active_count db = count_where row_is_open db.deployments

unfoldable pub attention_counts : Database → ℕ × ℕ
attention_counts db = (
  count_where (λ row. is_interrupted row.status) db.deployments,
  count_where (λ row. is_needs_attention row.status) db.deployments,
)
