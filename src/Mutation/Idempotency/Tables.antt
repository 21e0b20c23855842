-- ===== src/Mutation/Idempotency/Tables.antt =====
-- What a queued deployment and a collection do to the slot of a key (src/mutation/idempotency.rs).
use solodock.Base.{
  ℕ, ◌≤◌, Bool, true, false, not, ◌&&◌, is_some, Option, none, some, List, ◌≡◌, refl, inl, inr,
  arith, sym, ap, ◌∙◌, Bool-cases, String,
}
use solodock.Base.Table.{count_where, find_where, find_where-append_last, find_where-append_miss}
use solodock.Base.Text.{Text, same, same_iff, same_sym}
use solodock.Database.{Uuid, Time}
use solodock.Mutation.Idempotency.Rows.{
  IdempotencyRecord, MutationStore, in_slot, pending_record, validate_key, is_settled,
}
use solodock.Deploy.Ledger.{is_poll}
use solodock.Mutation.Idempotency.Gc.{collect}
use solodock.Mutation.Idempotency.Scheduling.{
  DeploymentRequest, actor_of, accept_record, claim_deployment,
}
use solodock.Mutation.Idempotency.Calls.{Call}
use solodock.Mutation.Idempotency.Deletion.{Deleted-found, collect-Deleted}
use solodock.Mutation.Idempotency.Queued.{queued_answer, claim_deployment-records}
use solodock.Mutation.Idempotency.Slot.{
  Slot, Operation, view, slot_of, targets, forget, queue_free, is_client, slot_step, decides,
}

forget-settled :
    (row : IdempotencyRecord) → is_settled row.status ≡ true → forget (view (some row)) ≡ Slot.free
unfolding forget view is_settled
forget-settled row h = ground arith

none_new {ℓ} : {A : Type ℓ} (o : Option A) → is_some o && not (is_some o) ≡ false
none_new none = refl
none_new (some a) = refl

queue_free-row :
    (b : Bool) (new : Operation) (body : Text) (row : IdempotencyRecord)
    → queue_free b new body (view (some row)) ≡ view (some row)
unfolding queue_free view
queue_free-row true new body row = ground arith
queue_free-row false new body row = refl

queue_free-refused :
    (new : Operation) (body : Text) (slot : Slot) → queue_free false new body slot ≡ slot
unfolding queue_free
queue_free-refused new body slot = refl

queued_answer-in_slot :
    (route kh r k request : Text) (wanted : DeploymentRequest) (id : Uuid) (body : Text)
    (now : Time) (rows : List IdempotencyRecord)
    → in_slot "admin" route kh
        (queued_answer (actor_of wanted.trigger) r k request id body now rows)
      ≡ (is_client wanted && targets route kh r k)
unfolding in_slot accept_record pending_record
queued_answer-in_slot route kh r k request wanted id body now rows =
    elim (Bool-cases (is_poll wanted.trigger)) [
      | inl e ↦ rw e refl
      | inr e ↦ rw e (ground (arith, same_sym r route, same_sym k kh))
    ]

-- A client's slot, where the key is the same.
pub own_key :
    (route kh r k : Text) (wanted : DeploymentRequest)
    → (is_client wanted && targets route kh r k) ≡ true
    → (actor_of wanted.trigger ≡ "admin") × ((r ≡ route) × (k ≡ kh))
own_key route kh r k wanted h = (
  elim (Bool-cases (is_poll wanted.trigger)) [
    | inl e ↦ let h' = rw e at h in absurd cc
    | inr e ↦ rw e refl
  ],
  (sym ((same_iff route r).0 (ground arith)), sym ((same_iff kh k).0 (ground arith))),
)

queued_answer-view :
    (actor : String) (r k request : Text) (id : Uuid) (body : Text) (now : Time)
    (rows : List IdempotencyRecord)
    → view (some (queued_answer actor r k request id body now rows))
      ≡ Slot.settled (record { id = id; request = request }) 202 body
unfolding view accept_record pending_record
queued_answer-view actor r k request id body now rows = refl

module _ (keyed : Text → Text) (route kh : Text) where
  pub collect-slot_of :
      (cutoff : Time) (rows : List (ℕ × Uuid)) (store : MutationStore)
      → count_where (in_slot "admin" route kh) store.records ≤ 1
      → slot_of route kh (collect cutoff rows store).0
        ≡ slot_step keyed route kh
            (slot_of route kh store)
            (decides keyed route kh store (Call.collects cutoff rows), Call.collects cutoff rows)
  unfolding slot_of slot_step decides
  collect-slot_of cutoff rows store u =
      let q = in_slot "admin" route kh in
      elim (Deleted-found q (collect cutoff rows store).0.records store.records
        (collect-Deleted cutoff rows store) u) [
          | inl same ↦ rw (same, none_new (find_where q store.records)) refl
          | inr (row, (found, (settled, gone))) ↦
              rw (found, gone) (sym (forget-settled row settled) ∙ refl)
        ]

  pub queue-slot_of :
      (r key request : Text) (wanted : DeploymentRequest) (request_id id : Uuid) (body : Text)
      (now : Time) (store : MutationStore)
      → let call = Call.queues r key request request_id wanted id body in
        slot_of route kh
          (claim_deployment (λ id. body) keyed r key request request_id wanted id now store).0
        ≡ slot_step keyed route kh
            (slot_of route kh store)
            (decides keyed route kh store call, call)
  unfolding slot_of slot_step decides
  queue-slot_of r key request wanted request_id id body now store =
      let actor = actor_of wanted.trigger in
      let q = in_slot "admin" route kh in
      elim (claim_deployment-records (λ id. body) keyed r key request wanted request_id id now
        store) [
          | inl (valid, (free, (admitted, (e, answer)))) ↦
              let new = queued_answer actor r (keyed key) request id body now store.records in
              let own =
                queued_answer-in_slot route kh r (keyed key) request wanted id body now
                  store.records in
              elim (Bool-cases (is_client wanted && targets route kh r (keyed key))) [
                | inr miss ↦
                    let skipped : (is_client wanted
                          && (targets route kh r (keyed key) && validate_key key))
                        ≡ false =
                      ground arith in
                    rw skipped (
                      ap view (
                        ap (find_where q) e
                        ∙ find_where-append_miss q store.records new (own ∙ miss)))
                | inl hit ↦
                    let (admin, (r', k')) = own_key route kh r (keyed key) wanted hit in
                    let free' : find_where q store.records ≡ none = rw (admin, r', k') at free in
                    let taken : (is_client wanted
                          && (targets route kh r (keyed key) && validate_key key))
                        ≡ true =
                      ground arith in
                    rw (taken, admitted, free')
                      (ap view (
                          ap (find_where q) e
                          ∙ find_where-append_last q store.records new free' (own ∙ hit))
                        ∙ (queued_answer-view actor r (keyed key) request id body now store.records
                            ∙ (unfold view queue_free in refl)))
              ]
          | inr (why, same) ↦
              ap (slot_of route kh) same
              ∙ sym
                  (elim (Bool-cases
                    (is_client wanted && (targets route kh r (keyed key) && validate_key key))) [
                      | inr skipped ↦ rw skipped refl
                      | inl taken ↦ rw taken (elim why [
                        | inl (bad, answer) ↦ absurd (ground arith)
                        | inr (inr (refused, answer)) ↦ rw refused (
                            queue_free-refused (record { id = id; request = request }) body
                              (slot_of route kh store))
                        | inr (inl (row, (found, answer))) ↦
                            let (admin, (r', k')) =
                              own_key route kh r (keyed key) wanted (ground arith) in
                            let found' : find_where q store.records ≡ some row =
                              rw (admin, r', k') at found in
                            rw found' (queue_free-row _ _ body row)
                      ])
                    ])
        ]
