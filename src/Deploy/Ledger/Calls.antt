-- ===== src/Deploy/Ledger/Calls.antt =====
-- Any sequence of calls of the ledger. A call that fails leaves the database as it was.
use solodock.Base.{String, Option, List, [], ◌∷◌, after, Result, ok, ◌>>=◌}
use solodock.Database.{
  Uuid, Time, Database, DeploymentTrigger, DeploymentStatus, DeploymentPhase, LedgerError,
}
use solodock.Deploy.Ledger.Transactions.{
  create, transition, resolved, set_health, interrupt_nonterminal,
}
use solodock.Deploy.Ledger.Journal.{
  mark_effect_started, mark_effect_observed, mark_rollback_started, mark_rollback_observed,
}

pub data Call : Type 0 where
  creates :
      Uuid → Uuid → DeploymentTrigger → Uuid → Option Uuid → Option Uuid → Option Uuid → Uuid → Call
  transitions_to : Uuid → DeploymentPhase → DeploymentStatus → String → Option String → Call
  resolves : Uuid → Uuid → Option Uuid → String → String → String → String → Call
  sets_health : Uuid → String → String → Call
  starts_effect : Uuid → Option String → Option String → Call
  observes_effect : Uuid → String → Call
  starts_rollback : Uuid → String → Call
  observes_rollback : Uuid → Option String → Call
  interrupts : Call

unfoldable pub attempt : Time → Call → Database → Result LedgerError Database
attempt now (creates id app trigger revision from target of request) db = do
  (next, row) ← create id app trigger revision from target of request now db
  ok next
attempt now (transitions_to id phase status outcome code) db =
    transition id phase status outcome code now db
attempt now (resolves id candidate predecessor source descriptor manifest platform) db =
    resolved id candidate predecessor source descriptor manifest platform now db
attempt now (sets_health id policy result) db = set_health id policy result now db
attempt now (starts_effect id container started_at) db =
    mark_effect_started id container started_at now db
attempt now (observes_effect id container) db = mark_effect_observed id container now db
attempt now (starts_rollback id container) db = mark_rollback_started id container now db
attempt now (observes_rollback id container) db = mark_rollback_observed id container now db
attempt now interrupts db = ok (interrupt_nonterminal now db).0

unfoldable pub step : Database → Time × Call → Database
unfolding attempt
step db (now, call) = after db (attempt now call db)

unfoldable pub run : Database → List (Time × Call) → Database
run db [] = db
run db (c ∷ cs) = run (step db c) cs
