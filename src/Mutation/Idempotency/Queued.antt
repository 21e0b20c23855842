-- ===== src/Mutation/Idempotency/Queued.antt =====
-- What the claim of a deployment does to the table of operations (src/mutation/idempotency.rs).
use solodock.Base.{
  ℕ, Bool, true, false, ◌&&◌, ◌==◌, ==_refl, none, some, List, [], ◌∷◌, ◌++◌, ◌≡◌, refl, ◌⊎◌, inl,
  inr, arith, Bool-cases, Option-cases, String, text_eq_iff, ok, err,
}
use solodock.Base.Table.{
  count_where, count_where_mono, find_where, find_where_none→count, update_where-append_last,
}
use solodock.Base.Text.{Text, same_refl}
use solodock.Database.{Uuid, Time}
use solodock.Deploy.Ledger.{violates_unique}
use solodock.Mutation.Idempotency.Rows.{
  IdempotencyRecord, MutationStore, next_rowid, pending_record, in_slot, validate_key,
  IdempotencyError, ClaimResult,
}
use solodock.Mutation.Idempotency.Operations.{insert_audit, insert_record}
use solodock.Mutation.Idempotency.Scheduling.{
  DeploymentRequest, actor_of, accept_record, queue_deployment, deployment_found, deployment_row,
  claim_deployment,
}

pub own_slot :
    (rowid : ℕ) (actor : String) (route kh request : Text) (id : Uuid) (now : Time)
    → in_slot actor route kh (pending_record rowid actor route kh request id now) ≡ true
unfolding in_slot pending_record
own_slot rowid actor route kh request id now =
    ground (arith, same_refl route, same_refl kh, text_eq_iff actor actor)

-- The row of a queued deployment.
abbrev pub queued_answer :
    String → Text → Text → Text → Uuid → Text → Time → List IdempotencyRecord → IdempotencyRecord
queued_answer actor route kh request id body now rows =
    accept_record body now (pending_record (next_rowid rows) actor route kh request id now)

pub queue_deployment-records :
    (queued_body : Uuid → Text) (actor : String) (route kh request : Text)
    (wanted : DeploymentRequest) (request_id id : Uuid) (now : Time) (store : MutationStore)
    → find_where (in_slot actor route kh) store.records ≡ none
    → (queue_deployment queued_body actor route kh request wanted request_id id now store).records
      ≡ store.records
        ++ queued_answer actor route kh request id (queued_body id) now store.records ∷ []
unfolding queue_deployment insert_record insert_audit
queue_deployment-records queued_body actor route kh request wanted request_id id now store free =
    let new = pending_record (next_rowid store.records) actor route kh request id now in
    let own = own_slot (next_rowid store.records) actor route kh request id now in
    let same_id : (new.operation_id == id) ≡ true = unfold pending_record in ==_refl id in
    let test : IdempotencyRecord → Bool =
      λ row. in_slot actor route kh row && row.operation_id == id in
    let miss : count_where test store.records ≡ 0 = omega (
      arith,
      find_where_none→count (in_slot actor route kh) store.records free,
      count_where_mono test (in_slot actor route kh) store.records (λ row h. ground arith),
    ) in
    update_where-append_last test (accept_record (queued_body id) now) store.records new miss
      (rw (own, same_id) refl)

-- The claim queues: its key is valid and free, and the ledger admits the deployment.
abbrev pub is_admitted : DeploymentRequest → Uuid → MutationStore → Bool
is_admitted wanted id store =
    count_where (violates_unique id wanted.app_id) store.ledger.deployments == 0

-- The claim of a deployment appends its answered row and answers its id, or leaves the table and does
-- not answer a new operation.
pub claim_deployment-records :
    (queued_body : Uuid → Text) (keyed : Text → Text) (route key request : Text)
    (wanted : DeploymentRequest) (request_id id : Uuid) (now : Time) (store : MutationStore)
    → let actor = actor_of wanted.trigger in
      let claimed =
        claim_deployment queued_body keyed route key request request_id wanted id now store in
      let slot = in_slot actor route (keyed key) in
      ((validate_key key ≡ true)
        × ((find_where slot store.records ≡ none)
            × ((is_admitted wanted id store ≡ true)
                × ((claimed.0.records
                      ≡ store.records
                        ++ queued_answer actor route
                            (keyed key)
                            request
                            id
                            (queued_body id)
                            now
                            store.records
                          ∷ [])
                    × (claimed.1 ≡ ok (ClaimResult.fresh id))))))
      ⊎ ((((validate_key key ≡ false) × (claimed.1 ≡ err IdempotencyError.key_invalid))
            ⊎ (((row : IdempotencyRecord) × ((find_where slot store.records ≡ some row)
                    × (claimed.1 ≡ deployment_row request row)))
                ⊎ ((is_admitted wanted id store ≡ false)
                    × (claimed.1 ≡ err IdempotencyError.in_progress))))
          × (claimed.0 ≡ store))
unfolding claim_deployment
claim_deployment-records queued_body keyed route key request wanted request_id id now store =
    let actor = actor_of wanted.trigger in
    elim (Bool-cases (validate_key key)) [
      | inr bad ↦ inr (inl (bad, rw bad refl), rw bad refl)
      | inl good ↦
          elim (Option-cases (find_where (in_slot actor route (keyed key)) store.records)) [
            | inr (row, e) ↦ inr (
              inr (inl (row, (e, rw (good, e, deployment_found) refl))),
              rw (good, e, deployment_found) refl,
            )
            | inl free ↦ elim (Bool-cases (is_admitted wanted id store)) [
              | inr taken ↦ inr (
                inr (inr (taken, rw (good, free, deployment_found) (rw taken refl))),
                rw (good, free, deployment_found) (rw taken refl),
              )
              | inl open_to ↦ inl (
                good,
                (
                  free,
                  (
                    open_to,
                    (
                      rw (good, free, deployment_found)
                          (rw open_to (
                            queue_deployment-records queued_body actor route (keyed key) request
                              wanted request_id id now store free)),
                      rw (good, free, deployment_found) (rw open_to refl),
                    ),
                  ),
                ),
              )
            ]
          ]
    ]
