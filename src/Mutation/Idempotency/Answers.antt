-- ===== src/Mutation/Idempotency/Answers.antt =====
-- What the service answers, by the contract of the key (src/mutation/idempotency.rs).
use solodock.Mutation.Idempotency.Rows.{validate_key, ClaimResult, MutationStore, IdempotencyError}
use solodock.Base.{
  ℕ, ◌<◌, ◌%◌, true, Option, some, List, if◌then◌else◌, ◌≡◌, refl, arith, ◌∙◌, Result, ok, err,
}
use solodock.Base.Text.{Text, same_refl}
use solodock.Database.{Uuid, Time}
use solodock.Mutation.Idempotency.Operations.{insert_audit, claim, finish}
use solodock.Mutation.Idempotency.Calls.{Call, step, run}
use solodock.Mutation.Idempotency.Slot.{
  Slot, Operation, history, slot_of, slot_run, claim_free, settle, owner,
}
use solodock.Mutation.Idempotency.Views.{targets_refl, slot_of-update_key, finish-Acts}
use solodock.Mutation.Idempotency.Refinement.{claim_slot-answer, run-slot_of}
use solodock.Mutation.Idempotency.Invariant.{step-IsIntact, IsIntact, run-IsIntact}

-- What a claim of a key answers, by the slot of the key.
abbrev pub answer_of : Text → Operation → Slot → Result IdempotencyError ClaimResult
answer_of key new slot =
    if validate_key key then (claim_free new slot).1 else err IdempotencyError.key_invalid

claim-answer :
    (keyed : Text → Text) (route key request : Text) (request_id id : Uuid) (now : Time)
    (store : MutationStore)
    → IsIntact store.records
    → (claim keyed route key request request_id id now store).1
      ≡ answer_of key (record { id = id; request = request }) (slot_of route (keyed key) store)
unfolding claim
claim-answer keyed route key request request_id id now store w =
    ground (arith, claim_slot-answer route (keyed key) request request_id id now store w.answered)

settle-owner :
    (op : Operation) (status : ℕ) (body : Text) (slot : Slot)
    → owner slot ≡ some op
    → settle status body slot ≡ Slot.settled op (status % 65536) body
unfolding settle
settle-owner op status body Slot.free owned = absurd cc
settle-owner op status body (Slot.busy own) owned = ground arith
settle-owner op status body (Slot.parked own) owned = ground arith
settle-owner op status body (Slot.settled own n b) owned = ground arith

settled-replays :
    (op : Operation) (id status : ℕ) (body : Text) (slot : Slot)
    → owner slot ≡ some op
    → status < 65536
    → (claim_free (record { id = id; request = op.request }) (settle status body slot)).1
      ≡ ok (ClaimResult.replay op.id status body)
unfolding claim_free
settled-replays op id status body slot owned le =
    let small : status % 65536 ≡ status = omega arith in
    rw (settle-owner op status body slot owned, same_refl op.request, small) refl

module _ (keyed : Text → Text) where
  -- After any sequence of the service's calls on its table, deployments and
  -- collections included, a claim answers what the contract
  -- of its key answers after these calls, where the contract is told whether the ledger admitted a
  -- deployment and whether a collection deleted the row of the key, which frees a settled key only.
  pub run-claim :
      (route key request : Text) (request_id id : Uuid) (now : Time) (store : MutationStore)
      (cs : List (Time × Call))
      → IsIntact store.records
      → (claim keyed route key request request_id id now (run keyed store cs)).1
        ≡ answer_of key
            (record { id = id; request = request })
            (slot_run keyed route
              (keyed key)
              (slot_of route (keyed key) store)
              (history keyed route (keyed key) store cs))
  run-claim route key request request_id id now store cs w =
      rw (← run-slot_of keyed route (keyed key) store cs w) (
        claim-answer keyed route key request request_id id now (run keyed store cs)
          (run-IsIntact keyed store cs w))

  finished :
      (route key : Text) (status : ℕ) (body : Text) (code : Option Text) (request_id : Uuid)
      (now : Time) (store : MutationStore)
      → slot_of route (keyed key) (finish keyed route key status body code request_id now store)
        ≡ settle status body (slot_of route (keyed key) store)
  unfolding finish slot_of insert_audit
  finished route key status body code request_id now store =
      slot_of-update_key _ _ (finish-Acts status body code now) route (keyed key) route (keyed key)
        store
      ∙ rw (targets_refl route (keyed key)) refl

  finish-IsIntact :
      (route key : Text) (status : ℕ) (body : Text) (code : Option Text) (request_id : Uuid)
      (now : Time) (store : MutationStore)
      → IsIntact store.records
      → IsIntact (finish keyed route key status body code request_id now store).records
  unfolding step
  finish-IsIntact route key status body code request_id now store w =
      step-IsIntact keyed store now (Call.finishes route key status body code request_id) w

  -- What an operation answered is what the next claim of its key for its request replays, whenever it
  -- comes.
  pub claim-finish :
      (route key : Text) (op : Operation) (status : ℕ) (body : Text) (code : Option Text)
      (request_id request_id' id : Uuid) (now later : Time) (store : MutationStore)
      → IsIntact store.records
      → validate_key key ≡ true
      → owner (slot_of route (keyed key) store) ≡ some op
      → status < 65536
      → (claim keyed route key op.request request_id' id later
          (finish keyed route key status body code request_id now store)).1
        ≡ ok (ClaimResult.replay op.id status body)
  claim-finish route key op status body code request_id request_id' id now later store w valid owned
        le =
      rw
        (
          claim-answer keyed route key op.request request_id' id later
              (finish keyed route key status body code request_id now store)
              (finish-IsIntact route key status body code request_id now store w),
          valid,
          finished route key status body code request_id now store,
          settled-replays op id status body (slot_of route (keyed key) store) owned le,
        )
        refl
