-- ===== src/Mutation/Idempotency/Operations.antt =====
-- The methods of IdempotencyService that claim, answer, finish and interrupt an operation
-- (src/mutation/idempotency.rs). `keyed` is `hmac(&self.key.0, …)`, of the crates hmac and sha2; a call
-- takes the instant of `now_utc` and the id of `Uuid::new_v4`. Each returns the store it commits, with
-- its answer: a transaction that answers an error is rolled back.
use solodock.Base.{
  ℕ, String, Bool, Option, none, some, [], ◌∷◌, ◌++◌, ◌&&◌, ◌||◌, ◌%◌, ltb, text_eq, if◌then◌else◌,
  Result, ok, err,
}
use solodock.Base.Table.{find_where, update_where}
use solodock.Base.Text.{Text, same}
use solodock.Database.{Uuid, Time}
use solodock.Mutation.Idempotency.Rows.{
  IdempotencyRecord, MutationStore, IdempotencyError, ClaimResult, RecordStatus, validate_key,
  in_slot, is_pending, next_rowid, pending_record, interrupt_record, resume_record, finish_record,
}

-- `ClaimResult::Replay` of a row: its status as `u16`, and its body.
unfoldable pub replay_of : IdempotencyRecord → Result IdempotencyError ClaimResult
replay_of row = elim row.response_status [
  | none ↦ err IdempotencyError.panicked
  | some status ↦ elim row.response_body [
    | none ↦ err IdempotencyError.panicked
    | some body ↦ ok (ClaimResult.replay row.operation_id (status % 65536) body)
  ]
]

-- The answer of `completed_for_actor` from the row of the key.
unfoldable pub completed_row :
    Text → IdempotencyRecord → Result IdempotencyError (Option ClaimResult)
unfolding replay_of
completed_row request_hmac row =
    if same row.request_hmac request_hmac
    then elim row.status [
      | RecordStatus.pending ↦ ok none
      | RecordStatus.interrupted ↦ ok none
      | _ ↦ elim (replay_of row) [ err e ↦ err e | ok answer ↦ ok (some answer) ]
    ]
    else err IdempotencyError.reused

unfoldable pub insert_record : IdempotencyRecord → MutationStore → MutationStore
insert_record row store = record store { records = store.records ++ row ∷ [] }

unfoldable pub insert_audit :
    String → Uuid → Text → Option Uuid → String → Time → MutationStore → MutationStore
insert_audit actor request_id action target outcome now store = record store {
  audits =
      store.audits
      ++ record {
        actor = actor;
        request_id = request_id;
        action = action;
        target_id = target;
        outcome = outcome;
        created_at = now;
      }
        ∷ [];
}

-- `UPDATE idempotency_records SET f WHERE p`.
abbrev pub update_records :
    (IdempotencyRecord → Bool)
    → (IdempotencyRecord → IdempotencyRecord)
    → MutationStore
    → MutationStore
update_records p f store = record store { records = update_where p f store.records }

-- What `claim` does with a row that has the key already.
unfoldable pub claim_row :
    Text
    → Text
    → Text
    → Time
    → IdempotencyRecord
    → MutationStore
    → MutationStore × Result IdempotencyError ClaimResult
unfolding replay_of in_slot resume_record
claim_row route key_hmac request_hmac now row store =
    if same row.request_hmac request_hmac
    then elim row.status [
      | RecordStatus.interrupted ↦ (
        update_records (in_slot "admin" route key_hmac) (resume_record now) store,
        ok (ClaimResult.resume row.operation_id),
      )
      | RecordStatus.pending ↦ (store, err IdempotencyError.in_progress)
      | _ ↦ (store, replay_of row)
    ]
    else (store, err IdempotencyError.reused)

-- `INSERT OR IGNORE` inserts when no row has the primary key; the `SELECT` reads that row otherwise.
unfoldable pub claim_found :
    Option IdempotencyRecord
    → Text
    → Text
    → Text
    → Uuid
    → Uuid
    → Time
    → MutationStore
    → MutationStore × Result IdempotencyError ClaimResult
unfolding pending_record next_rowid insert_record insert_audit claim_row
claim_found none route key_hmac request_hmac request_id operation_id now store = (
  insert_audit "admin" request_id route none "attempt" now (
      insert_record
        (pending_record (next_rowid store.records) "admin" route key_hmac request_hmac operation_id
          now)
        store),
  ok (ClaimResult.fresh operation_id),
)
claim_found (some row) route key_hmac request_hmac request_id operation_id now store =
    claim_row route key_hmac request_hmac now row store

unfoldable pub claim_slot :
    Text
    → Text
    → Text
    → Uuid
    → Uuid
    → Time
    → MutationStore
    → MutationStore × Result IdempotencyError ClaimResult
unfolding in_slot claim_found
claim_slot route key_hmac request_hmac request_id operation_id now store =
    claim_found (find_where (in_slot "admin" route key_hmac) store.records) route key_hmac
      request_hmac request_id operation_id now store

module _ (keyed : Text → Text) where
  unfoldable pub completed_for_actor :
      String → Text → Text → Text → MutationStore → Result IdempotencyError (Option ClaimResult)
  unfolding in_slot completed_row validate_key
  completed_for_actor actor route raw_key request_hmac store =
      if text_eq actor "admin" || text_eq actor "system"
      then if validate_key raw_key
        then elim (find_where (in_slot actor route (keyed raw_key)) store.records) [
          | none ↦ ok none
          | some row ↦ completed_row request_hmac row
        ]
        else err IdempotencyError.key_invalid
      else err IdempotencyError.key_invalid

  unfoldable pub completed :
      Text → Text → Text → MutationStore → Result IdempotencyError (Option ClaimResult)
  unfolding completed_for_actor
  completed = completed_for_actor "admin"

  unfoldable pub claim :
      Text
      → Text
      → Text
      → Uuid
      → Uuid
      → Time
      → MutationStore
      → MutationStore × Result IdempotencyError ClaimResult
  unfolding claim_slot validate_key
  claim route raw_key request_hmac request_id operation_id now store =
      if validate_key raw_key
      then claim_slot route (keyed raw_key) request_hmac request_id operation_id now store
      else (store, err IdempotencyError.key_invalid)

  unfoldable pub finish :
      Text → Text → ℕ → Text → Option Text → Uuid → Time → MutationStore → MutationStore
  unfolding in_slot finish_record insert_audit
  finish route raw_key status body error_code request_id now store =
      insert_audit "admin" request_id route none (if ltb status 400 then "succeeded" else "failed")
        now
        (update_records (in_slot "admin" route (keyed raw_key))
          (finish_record status body error_code now) store)

  unfoldable pub mark_interrupted : Text → Text → Uuid → Time → MutationStore → MutationStore
  unfolding in_slot interrupt_record insert_audit
  mark_interrupted route raw_key request_id now store =
      insert_audit "admin" request_id route none "interrupted" now (
        update_records (λ row. in_slot "admin" route (keyed raw_key) row && is_pending row)
          (interrupt_record now) store)

unfoldable pub interrupt_pending : Time → MutationStore → MutationStore
unfolding interrupt_record
interrupt_pending now store = update_records is_pending (interrupt_record now) store
