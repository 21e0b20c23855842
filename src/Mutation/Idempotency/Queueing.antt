-- ===== src/Mutation/Idempotency/Queueing.antt =====
-- A claim of a deployment answers and queues in one transaction (src/mutation/idempotency.rs).
use solodock.Mutation.Idempotency.Operations.{replay_of, insert_audit, insert_record}
use solodock.Mutation.Idempotency.Slot.{is_answered}
use solodock.Mutation.Idempotency.Scheduling.{
  deployment_found, deployment_row, actor_of, claim_deployment, queue_deployment,
  ScheduledResolvedTarget, DeploymentRequest, schedule, queued_row, accept_record,
}
use solodock.Mutation.Idempotency.Rows.{
  validate_key, IdempotencyError, ClaimResult, RecordStatus, next_rowid, MutationStore,
  IdempotencyRecord, is_settled, pending_record, in_slot,
}
use solodock.Base.{
  Bool, true, false, ◌&&◌, ◌==◌, ==_refl, ==_iff, Option, none, some, ◌≡◌, refl, inl, inr, ◌⊎◌,
  arith, Bool-cases, Option-cases, String, Result, ok,
}
use solodock.Base.Table.{
  count_where_none→find, count_where, find_where, find_where-update, find_where-append_last,
}
use solodock.Base.Text.{Text}
use solodock.Database.{Uuid, Time, Deployment, DeploymentStatus}
use solodock.Deploy.Ledger.{violates_unique, new_deployment, add_queued, has_id}
use solodock.Deploy.Ledger.Uniqueness.{IsUnique, Change-IsUnique, violates-ids}
use solodock.Deploy.Ledger.Change.{inserted as queued_one}
use solodock.Mutation.Idempotency.Invariant.{IsIntact, Change-IsIntact}
use solodock.Mutation.Idempotency.Queued.{own_slot}
use solodock.Mutation.Idempotency.Change.{Keeps, inserted, updated}

schedule-keeps :
    (target : Option ScheduledResolvedTarget) (row : Deployment)
    → ((schedule target row).id ≡ row.id)
      × ((schedule target row).app_id ≡ row.app_id)
      × ((schedule target row).status ≡ row.status)
unfolding schedule
schedule-keeps none row = (refl, refl, refl)
schedule-keeps (some target) row = (refl, refl, refl)

queued_row-keys :
    (id : Uuid) (request : DeploymentRequest) (request_id : Uuid) (now : Time)
    → ((queued_row id request request_id now).id ≡ id)
      × ((queued_row id request request_id now).app_id ≡ request.app_id)
      × ((queued_row id request request_id now).status ≡ DeploymentStatus.queued)
unfolding queued_row new_deployment
queued_row-keys id request request_id now = schedule-keeps request.scheduled _

accept-Keeps :
    (p : IdempotencyRecord → Bool) (body : Text) (now : Time) → Keeps p (accept_record body now)
unfolding accept_record in_slot is_answered is_settled
accept-Keeps p body now = record {
  slot = λ actor route kh row. refl;
  operation = λ row. refl;
  rowid = λ row. refl;
  marker = λ row e h. record { marked = h; container = refl; started_at = refl };
  answered = λ row h. refl;
}

-- The claims that were answered by `New`.
abbrev pub is_fresh : Result IdempotencyError ClaimResult → Bool
is_fresh (ok (ClaimResult.fresh id)) = true
is_fresh _ = false

deployment_row-old :
    (request : Text) (row : IdempotencyRecord) → is_fresh (deployment_row request row) ≡ false
unfolding deployment_row replay_of
deployment_row-old request row = ground arith

module _ (queued_body : Uuid → Text) where
  -- The row of the key after a claim that queues.
  queued_record :
      (actor : String) (route kh request : Text) (wanted : DeploymentRequest) (request_id id : Uuid)
      (now : Time) (store : MutationStore)
      → find_where (in_slot actor route kh) store.records ≡ none
      → find_where
          (in_slot actor route kh)
          (queue_deployment queued_body actor route kh request wanted request_id id now
            store).records
        ≡ some (
            accept_record
              (queued_body id)
              now
              (pending_record (next_rowid store.records) actor route kh request id now))
  unfolding queue_deployment insert_record insert_audit
  queued_record actor route kh request wanted request_id id now store free =
      let new = pending_record (next_rowid store.records) actor route kh request id now in
      let own = own_slot (next_rowid store.records) actor route kh request id now in
      let there = find_where-append_last (in_slot actor route kh) store.records new free own in
      let same_id : (new.operation_id == id) ≡ true = unfold pending_record in ==_refl id in
      let moved =
        find_where-update (λ row. in_slot actor route kh row && row.operation_id == id)
          (in_slot actor route kh) (accept_record (queued_body id) now) _ new
          (λ row. unfold accept_record in_slot in refl) there in
      rw (own, same_id) at moved

  -- What a claim that queued a deployment leaves behind: the deployment, and the answered row of the
  -- key.
  pub record Queued (actor : String) (route kh : Text) (wanted : DeploymentRequest)
      (request_id id : Uuid) (now : Time) (next : MutationStore) : Type 0 where
    pub deployment :
        find_where (has_id id) next.ledger.deployments ≡ some (queued_row id wanted request_id now)
    pub answer : IdempotencyRecord
    pub there : find_where (in_slot actor route kh) next.records ≡ some answer
    pub operation : answer.operation_id ≡ id
    pub status : answer.status ≡ RecordStatus.succeeded
    pub response_status : answer.response_status ≡ some 202
    pub response_body : answer.response_body ≡ some (queued_body id)

  queued :
      (actor : String) (route kh request : Text) (wanted : DeploymentRequest) (request_id id : Uuid)
      (now : Time) (store : MutationStore)
      → find_where (in_slot actor route kh) store.records ≡ none
      → count_where (violates_unique id wanted.app_id) store.ledger.deployments ≡ 0
      → Queued actor route kh wanted request_id id now
          (queue_deployment queued_body actor route kh request wanted request_id id now store)
  unfolding queue_deployment insert_record insert_audit add_queued accept_record pending_record
  queued actor route kh request wanted request_id id now store free open_to = record {
    deployment =
        find_where-append_last (has_id id) store.ledger.deployments _
          (count_where_none→find (has_id id) store.ledger.deployments
            (violates-ids id wanted.app_id store.ledger.deployments open_to))
          ((==_iff _ id).1 (queued_row-keys id wanted request_id now).0);
    answer = _;
    there = queued_record actor route kh request wanted request_id id now store free;
    operation = refl;
    status = refl;
    response_status = refl;
    response_body = refl;
  }

  -- A claim of a deployment changes nothing, or answers a new operation and has queued its deployment
  -- and settled its key with the response, all at once.
  pub claim_deployment-atomic :
      (keyed : Text → Text) (route key request : Text) (wanted : DeploymentRequest)
      (request_id id : Uuid) (now : Time) (store : MutationStore)
      → let (next, answer) =
          claim_deployment queued_body keyed route key request request_id wanted id now store in
        ((next ≡ store) × (is_fresh answer ≡ false))
        ⊎ ((answer ≡ ok (ClaimResult.fresh id))
            × Queued (actor_of wanted.trigger) route (keyed key) wanted request_id id now next)
  unfolding claim_deployment
  claim_deployment-atomic keyed route key request wanted request_id id now store =
      let actor = actor_of wanted.trigger in
      elim (Bool-cases (validate_key key)) [
        | inr bad ↦ rw bad (inl (refl, refl))
        | inl good ↦
            elim (Option-cases (find_where (in_slot actor route (keyed key)) store.records)) [
              | inr (row, e) ↦
                  rw (good, e, deployment_found) (inl (refl, deployment_row-old request row))
              | inl free ↦
                  elim (Bool-cases (
                    count_where (violates_unique id wanted.app_id) store.ledger.deployments == 0)) [
                      | inr taken ↦ rw (good, free, deployment_found) (rw taken (inl (refl, refl)))
                      | inl open_to ↦
                          rw (good, free, deployment_found)
                            (rw open_to (
                              inr (
                                refl,
                                queued actor route (keyed key) request wanted request_id id now
                                    store free ((==_iff _ 0).0 open_to),
                              )))
                    ]
            ]
      ]

  queue_deployment-IsUnique :
      (actor : String) (route kh request : Text) (wanted : DeploymentRequest) (request_id id : Uuid)
      (now : Time) (store : MutationStore)
      → count_where (violates_unique id wanted.app_id) store.ledger.deployments ≡ 0
      → IsUnique store.ledger.deployments
      → IsUnique
          (queue_deployment queued_body actor route kh request wanted request_id id now
            store).ledger.deployments
  unfolding queue_deployment insert_record insert_audit add_queued
  queue_deployment-IsUnique actor route kh request wanted request_id id now store open_to u =
      let (id', app', status') = queued_row-keys id wanted request_id now in
      Change-IsUnique _ _
        (queued_one (queued_row id wanted request_id now) (rw (id', app') open_to) status' refl) u

  queue_deployment-IsIntact :
      (actor : String) (route kh request : Text) (wanted : DeploymentRequest) (request_id id : Uuid)
      (now : Time) (store : MutationStore)
      → find_where (in_slot actor route kh) store.records ≡ none
      → IsIntact store.records
      → IsIntact
          (queue_deployment queued_body actor route kh request wanted request_id id now
            store).records
  unfolding queue_deployment insert_record insert_audit
  queue_deployment-IsIntact actor route kh request wanted request_id id now store free w =
      Change-IsIntact _ _ (updated _ _ (accept-Keeps _ (queued_body id) now) refl) (
        Change-IsIntact _ _
          (inserted (pending_record (next_rowid store.records) actor route kh request id now) free
            (unfold pending_record is_answered is_settled in refl) (unfold pending_record in refl)
            refl)
          w)

  -- A claim of a deployment keeps the table of operations well-formed, and keeps one open deployment for
  -- each application at most.
  pub claim_deployment-keeps :
      (keyed : Text → Text) (route key request : Text) (wanted : DeploymentRequest)
      (request_id id : Uuid) (now : Time) (store : MutationStore)
      → IsIntact store.records
      → IsUnique store.ledger.deployments
      → let next =
          (claim_deployment queued_body keyed route key request request_id wanted id now store).0 in
        IsIntact next.records × IsUnique next.ledger.deployments
  unfolding claim_deployment
  claim_deployment-keeps keyed route key request wanted request_id id now store w u =
      let actor = actor_of wanted.trigger in
      elim (Bool-cases (validate_key key)) [
        | inr bad ↦ rw bad (w, u)
        | inl good ↦
            elim (Option-cases (find_where (in_slot actor route (keyed key)) store.records)) [
              | inr (row, e) ↦ rw (good, e, deployment_found) (w, u)
              | inl free ↦
                  elim (Bool-cases (
                    count_where (violates_unique id wanted.app_id) store.ledger.deployments == 0)) [
                      | inr taken ↦ rw (good, free, deployment_found) (rw taken (w, u))
                      | inl open_to ↦
                          rw (good, free, deployment_found)
                            (rw open_to (
                              queue_deployment-IsIntact actor route (keyed key) request wanted
                                  request_id id now store free w,
                              queue_deployment-IsUnique actor route (keyed key) request wanted
                                  request_id id now store ((==_iff _ 0).0 open_to) u,
                            ))
                    ]
            ]
      ]
