-- ===== src/Mutation/Idempotency/Refinement.antt =====
-- IdempotencyService keeps the contract of every key (src/mutation/idempotency.rs).
use solodock.Mutation.Idempotency.Slot.{Slot, view, is_answered, claim_free, targets, slot_of}
use solodock.Mutation.Idempotency.Rows.{
  validate_key, next_rowid, MutationStore, pending_record, in_slot,
}
use solodock.Mutation.Idempotency.Operations.{claim_found, insert_record, insert_audit, claim_slot}
use solodock.Base.{
  All, ℕ, true, false, none, some, List, [], ◌∷◌, ◌++◌, ◌≡◌, refl, inl, inr, arith, ap, ◌∙◌,
  Bool-cases, Option-cases,
}
use solodock.Base.Table.{find_where-All, find_where, find_where-append_last, find_where-append_miss}
use solodock.Base.Text.{Text, same_iff, same_refl, same_sym}
use solodock.Database.{Uuid, Time}
use solodock.Mutation.Idempotency.Views.{
  slot_of-update_key, claim_row-own, claim_row-other, claim_row-answer, slot_of-update,
  slot_of-update_slot, interrupt-Acts, finish-Acts, start-Acts, observe-Acts, complete-Acts,
  if_same,
}
use solodock.Mutation.Idempotency.Calls.{Call, step, run}
use solodock.Mutation.Idempotency.Slot.{slot_step, slot_run, decides, history}
use solodock.Mutation.Idempotency.Invariant.{IsIntact, step-IsIntact}
use solodock.Mutation.Idempotency.Tables.{queue-slot_of, collect-slot_of}
use solodock.Mutation.Idempotency.Operations.{claim, finish, mark_interrupted, interrupt_pending}
use solodock.Mutation.Idempotency.Effects.{
  mark_effect_started, mark_effect_observed, mark_effect_completed,
}

inserted-own :
    (rowid : ℕ) (r k request : Text) (id : Uuid) (now : Time)
    → in_slot "admin" r k (pending_record rowid "admin" r k request id now) ≡ true
unfolding in_slot pending_record
inserted-own rowid r k request id now = ground (arith, same_refl r, same_refl k)

inserted-other :
    (route kh : Text) (rowid : ℕ) (r k request : Text) (id : Uuid) (now : Time)
    → targets route kh r k ≡ false
    → in_slot "admin" route kh (pending_record rowid "admin" r k request id now) ≡ false
unfolding in_slot pending_record
inserted-other route kh rowid r k request id now miss =
    ground (arith, same_sym r route, same_sym k kh)

inserted_last :
    (r k request : Text) (id : Uuid) (now : Time) (store : MutationStore)
    → find_where (in_slot "admin" r k) store.records ≡ none
    → let new = pending_record (next_rowid store.records) "admin" r k request id now in
      find_where (in_slot "admin" r k) (store.records ++ new ∷ []) ≡ some new
inserted_last r k request id now store e =
    find_where-append_last (in_slot "admin" r k) store.records _ e
      (inserted-own (next_rowid store.records) r k request id now)

claim_found-inserts :
    (r k request : Text) (request_id id : Uuid) (now : Time) (store : MutationStore)
    → find_where (in_slot "admin" r k) store.records ≡ none
    → slot_of r k (claim_found none r k request request_id id now store).0
      ≡ Slot.busy (record { id = id; request = request })
unfolding claim_found slot_of insert_audit insert_record
claim_found-inserts r k request request_id id now store e =
    ap view (inserted_last r k request id now store e) ∙ (unfold view pending_record in refl)

pub claim_slot-own :
    (r k request : Text) (request_id id : Uuid) (now : Time) (store : MutationStore)
    → slot_of r k (claim_slot r k request request_id id now store).0
      ≡ (claim_free (record { id = id; request = request }) (slot_of r k store)).0
unfolding claim_slot
claim_slot-own r k request request_id id now store =
    elim (Option-cases (find_where (in_slot "admin" r k) store.records)) [
      | inl e ↦ rw e (
          claim_found-inserts r k request request_id id now store e
          ∙ (unfold slot_of claim_free in rw (e, view) refl))
      | inr (row, e) ↦
          rw (e, claim_found)
            (claim_row-own r k request id now row store e ∙ (unfold slot_of in rw e refl))
    ]

pub claim_slot-other :
    (route kh r k request : Text) (request_id id : Uuid) (now : Time) (store : MutationStore)
    → targets route kh r k ≡ false
    → slot_of route kh (claim_slot r k request request_id id now store).0 ≡ slot_of route kh store
unfolding claim_slot
claim_slot-other route kh r k request request_id id now store miss =
    elim (Option-cases (find_where (in_slot "admin" r k) store.records)) [
      | inl e ↦
          rw (e, claim_found)
            (unfold slot_of insert_audit insert_record in
              ap view (
                find_where-append_miss (in_slot "admin" route kh) store.records _
                  (inserted-other route kh (next_rowid store.records) r k request id now miss)))
      | inr (row, e) ↦ rw (e, claim_found) (claim_row-other route kh r k request now row store miss)
    ]

-- The answer of a claim, where the row of the key has its answer when it is settled.
pub claim_slot-answer :
    (r k request : Text) (request_id id : Uuid) (now : Time) (store : MutationStore)
    → All (λ row. is_answered row ≡ true) store.records
    → (claim_slot r k request request_id id now store).1
      ≡ (claim_free (record { id = id; request = request }) (slot_of r k store)).1
unfolding claim_slot slot_of claim_free
claim_slot-answer r k request request_id id now store h =
    elim (Option-cases (find_where (in_slot "admin" r k) store.records)) [
      | inl e ↦ rw (e, claim_found, view, claim_free) refl
      | inr (row, e) ↦
          rw (e, claim_found)
            (claim_row-answer r k request id now row store (
              find_where-All (λ row. is_answered row ≡ true) (in_slot "admin" r k) store.records row
                h e))
    ]

claim_slot-at_key :
    (route kh r k request : Text) (request_id id : Uuid) (now : Time) (store : MutationStore)
    → targets route kh r k ≡ true
    → slot_of route kh (claim_slot r k request request_id id now store).0
      ≡ (claim_free (record { id = id; request = request }) (slot_of route kh store)).0
claim_slot-at_key route kh r k request request_id id now store hit =
    let route' : route ≡ r = (same_iff route r).0 (ground arith) in
    let kh' : kh ≡ k = (same_iff kh k).0 (ground arith) in
    rw (route', kh') (claim_slot-own r k request request_id id now store)

module _ (keyed : Text → Text) where
  claim-slot_of :
      (route kh r key request : Text) (request_id id : Uuid) (now : Time) (store : MutationStore)
      → slot_of route kh (claim keyed r key request request_id id now store).0
        ≡ slot_step keyed route kh
            (slot_of route kh store)
            (false, Call.claims r key request request_id id)
  unfolding claim slot_step
  claim-slot_of route kh r key request request_id id now store =
      elim (Bool-cases (validate_key key)) [
        | inr bad ↦ ground arith
        | inl good ↦ elim (Bool-cases (targets route kh r (keyed key))) [
          | inl hit ↦
              ground (
                arith,
                claim_slot-at_key route kh r (keyed key) request request_id id now store hit,
              )
          | inr miss ↦
              rw (good, miss)
                (claim_slot-other route kh r (keyed key) request request_id id now store miss)
        ]
      ]

  -- Every call does to every key what the contract says.
  pub step-slot_of :
      (route kh : Text) (store : MutationStore) (now : Time) (c : Call)
      → IsIntact store.records
      → slot_of route kh (step keyed store (now, c))
        ≡ slot_step keyed route kh (slot_of route kh store) (decides keyed route kh store c, c)
  unfolding step slot_step slot_of decides insert_audit finish mark_interrupted interrupt_pending
      mark_effect_started mark_effect_observed mark_effect_completed
  step-slot_of route kh store now (Call.claims r key request request_id id) w =
      claim-slot_of route kh r key request request_id id now store
  step-slot_of route kh store now (Call.finishes r key status body code request_id) w =
      slot_of-update_key _ _ (finish-Acts status body code now) route kh r (keyed key) store
  step-slot_of route kh store now (Call.interrupts r key request_id) w =
      slot_of-update_slot _ _ _ (interrupt-Acts now) route kh r (keyed key) store
  step-slot_of route kh store now Call.interrupts_all w =
      slot_of-update _ _ _ _ (interrupt-Acts now) route kh true store (λ row h. refl)
  step-slot_of route kh store now (Call.starts r key container started_at) w =
      slot_of-update_slot _ _ _ (start-Acts container started_at now) route kh r (keyed key) store
      ∙ if_same (targets route kh r (keyed key)) _
  step-slot_of route kh store now (Call.observes r key container) w =
      slot_of-update_slot _ _ _ (observe-Acts container now) route kh r (keyed key) store
      ∙ if_same (targets route kh r (keyed key)) _
  step-slot_of route kh store now (Call.completes r key) w =
      slot_of-update_slot _ _ _ (complete-Acts now) route kh r (keyed key) store
      ∙ if_same (targets route kh r (keyed key)) _
  step-slot_of route kh store now (Call.queues r key request request_id wanted id body) w =
      queue-slot_of keyed route kh r key request wanted request_id id body now store
  step-slot_of route kh store now (Call.collects cutoff rows) w =
      collect-slot_of keyed route kh cutoff rows store (w.one_row "admin" route kh)

  -- After any sequence of calls, the slot of every key is where the contract says.
  pub run-slot_of :
      (route kh : Text) (store : MutationStore) (cs : List (Time × Call))
      → IsIntact store.records
      → slot_of route kh (run keyed store cs)
        ≡ slot_run keyed route kh (slot_of route kh store) (history keyed route kh store cs)
  unfolding run slot_run history
  run-slot_of route kh store [] w = refl
  run-slot_of route kh store ((now, c) ∷ cs) w =
      run-slot_of route kh (step keyed store (now, c)) cs (step-IsIntact keyed store now c w)
      ∙ ap
          (λ slot.
            slot_run keyed route kh slot (history keyed route kh (step keyed store (now, c)) cs))
          (step-slot_of route kh store now c w)
