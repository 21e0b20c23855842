-- ===== src/Mutation/Idempotency/Calls.antt =====
-- Any sequence of calls of the service on the table of operations, at any instants
-- (src/mutation/idempotency.rs). A deployment is queued with any text for the JSON of its response. A
-- collection deletes by any candidates, so that it covers candidates that were selected before the calls
-- in front of it. These are the calls of the service that write the table; not among them is the update of
-- a retention policy (src/api/retention.rs), which settles its own row by a statement of its own, nor what
-- the service and its callers write to other tables.
use solodock.Base.{ℕ, Option, List, [], ◌∷◌}
use solodock.Base.Text.{Text}
use solodock.Database.{Uuid, Time}
use solodock.Mutation.Idempotency.Rows.{MutationStore}
use solodock.Mutation.Idempotency.Gc.{collect}
use solodock.Mutation.Idempotency.Scheduling.{DeploymentRequest, claim_deployment}
use solodock.Mutation.Idempotency.Operations.{claim, finish, mark_interrupted, interrupt_pending}
use solodock.Mutation.Idempotency.Effects.{
  mark_effect_started, mark_effect_observed, mark_effect_completed,
}

pub data Call : Type 0 where
  claims : Text → Text → Text → Uuid → Uuid → Call
  finishes : Text → Text → ℕ → Text → Option Text → Uuid → Call
  interrupts : Text → Text → Uuid → Call
  interrupts_all : Call
  starts : Text → Text → Option Text → Option Text → Call
  observes : Text → Text → Text → Call
  completes : Text → Text → Call
  queues : Text → Text → Text → Uuid → DeploymentRequest → Uuid → Text → Call
  collects : Time → List (ℕ × Uuid) → Call

module _ (keyed : Text → Text) where
  unfoldable pub step : MutationStore → Time × Call → MutationStore
  step s (now, claims route key request request_id id) =
      (claim keyed route key request request_id id now s).0
  step s (now, finishes route key status body code request_id) =
      finish keyed route key status body code request_id now s
  step s (now, interrupts route key request_id) = mark_interrupted keyed route key request_id now s
  step s (now, interrupts_all) = interrupt_pending now s
  step s (now, starts route key container started_at) =
      (mark_effect_started keyed route key container started_at now s).0
  step s (now, observes route key container) =
      (mark_effect_observed keyed route key container now s).0
  step s (now, completes route key) = (mark_effect_completed keyed route key now s).0
  step s (now, queues route key request request_id wanted id body) =
      (claim_deployment (λ id. body) keyed route key request request_id wanted id now s).0
  step s (now, collects cutoff rows) = (collect cutoff rows s).0

  unfoldable pub run : MutationStore → List (Time × Call) → MutationStore
  run s [] = s
  run s (c ∷ cs) = run (step s c) cs
