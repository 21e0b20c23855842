-- ===== src/Mutation/Idempotency/Grants.antt =====
-- How often a key lets a caller do the work (src/mutation/idempotency.rs).
use solodock.Mutation.Idempotency.Rows.{validate_key, in_slot, MutationStore}
use solodock.Base.{
  sym, ap, ◌∙◌, none, ◌⊎◌, false, Bool-cases, ℕ, ◌+◌, ◌≤◌, Bool, true, ◌&&◌, List, [], ◌∷◌,
  if◌then◌else◌, ◌≡◌, refl, inl, inr, arith, Option-cases,
}
use solodock.Base.Table.{find_where}
use solodock.Base.Text.{same_iff, Text}
use solodock.Database.{Uuid, Time}
use solodock.Mutation.Idempotency.Operations.{claim, claim_slot, claim_found}
use solodock.Mutation.Idempotency.Rows.{IdempotencyRecord}
use solodock.Mutation.Idempotency.Operations.{replay_of}
use solodock.Mutation.Idempotency.Scheduling.{DeploymentRequest, deployment_row, claim_deployment}
use solodock.Mutation.Idempotency.Queued.{claim_deployment-records}
use solodock.Mutation.Idempotency.Tables.{own_key, queue-slot_of}
use solodock.Mutation.Idempotency.Invariant.{IsIntact, step-IsIntact}
use solodock.Mutation.Idempotency.Calls.{Call, step}
use solodock.Mutation.Idempotency.Slot.{
  Slot, Operation, is_client, decides, forget, queue_free, slot_of, slot_step, claim_free, settle,
  park, view, targets,
}
use solodock.Mutation.Idempotency.Views.{is_granted, claim_row-granted}
use solodock.Mutation.Idempotency.Refinement.{step-slot_of}

one : Bool → ℕ
one b = if b then 1 else 0

claim_slot-granted :
    (r k request : Text) (request_id id : Uuid) (now : Time) (store : MutationStore)
    → is_granted (claim_slot r k request request_id id now store).1
      ≡ is_granted (claim_free (record { id = id; request = request }) (slot_of r k store)).1
unfolding claim_slot slot_of claim_free
claim_slot-granted r k request request_id id now store =
    elim (Option-cases (find_where (in_slot "admin" r k) store.records)) [
      | inl e ↦ rw (e, claim_found, view) refl
      | inr (row, e) ↦
          rw (e, claim_found) (unfold claim_free in claim_row-granted r k request id now row store)
    ]

-- A call that an operation of this key may follow twice: an interruption.
abbrev pub interruption : Text → Text → (Text → Text) → Call → ℕ
interruption route kh keyed (Call.interrupts r key request_id) =
    if targets route kh r (keyed key) then 1 else 0
interruption route kh keyed Call.interrupts_all = 1
interruption route kh keyed _ = 0

-- The claims of a key in a run, of operations and of deployments, that were answered by `New` or
-- `Resume`.
abbrev pub grant : Text → Text → (Text → Text) → MutationStore → Time → Call → ℕ
grant route kh keyed store now (Call.claims r key request request_id id) =
    if targets route kh r (keyed key)
    then if is_granted (claim keyed r key request request_id id now store).1 then 1 else 0
    else 0
grant route kh keyed store now (Call.queues r key request request_id wanted id body) =
    if is_client wanted && targets route kh r (keyed key)
    then if is_granted
        (claim_deployment (λ id. body) keyed r key request request_id wanted id now store).1
      then 1
      else 0
    else 0
grant route kh keyed store now _ = 0

-- A collection that deletes the row of the key.
abbrev pub deletion : Text → Text → (Text → Text) → MutationStore → Call → ℕ
deletion route kh keyed store (Call.collects cutoff rows) =
    if decides keyed route kh store (Call.collects cutoff rows) then 1 else 0
deletion route kh keyed store _ = 0

-- How many grants a slot has left without an interruption.
left : Slot → ℕ
left Slot.free = 1
left (Slot.busy op) = 0
left (Slot.parked op) = 1
left (Slot.settled op status body) = 0

left_le : (slot : Slot) → left slot ≤ 1
unfolding left
left_le Slot.free = omega arith
left_le (Slot.busy op) = omega arith
left_le (Slot.parked op) = omega arith
left_le (Slot.settled op status body) = omega arith

claim_free-left :
    (new : Operation) (slot : Slot)
    → (if is_granted (claim_free new slot).1 then 1 else 0) + left (claim_free new slot).0
      ≡ left slot
unfolding left claim_free
claim_free-left new Slot.free = omega arith
claim_free-left new (Slot.busy op) = ground arith
claim_free-left new (Slot.parked op) = ground arith
claim_free-left new (Slot.settled op status body) = ground arith

settle-left : (status : ℕ) (body : Text) (slot : Slot) → left (settle status body slot) ≤ left slot
unfolding left settle
settle-left status body Slot.free = omega arith
settle-left status body (Slot.busy op) = omega arith
settle-left status body (Slot.parked op) = omega arith
settle-left status body (Slot.settled op n b) = omega arith

park-left : (slot : Slot) → left (park slot) ≤ left slot + 1
unfolding left park
park-left Slot.free = omega arith
park-left (Slot.busy op) = omega arith
park-left (Slot.parked op) = omega arith
park-left (Slot.settled op status body) = omega arith

claim-granted :
    (keyed : Text → Text) (route kh r key request : Text) (request_id id : Uuid) (now : Time)
    (store : MutationStore)
    → targets route kh r (keyed key) ≡ true
    → is_granted (claim keyed r key request request_id id now store).1 ≡ (
        validate_key key
        && is_granted
            (claim_free (record { id = id; request = request }) (slot_of route kh store)).1)
unfolding claim
claim-granted keyed route kh r key request request_id id now store hit =
    let route' : route ≡ r = (same_iff route r).0 (ground arith) in
    let kh' : kh ≡ keyed key = (same_iff kh (keyed key)).0 (ground arith) in
    rw (route', kh')
      (ground (arith, claim_slot-granted r (keyed key) request request_id id now store))

forget-left : (slot : Slot) → left (forget slot) ≤ left slot + 1
unfolding left forget
forget-left Slot.free = omega arith
forget-left (Slot.busy op) = omega arith
forget-left (Slot.parked op) = omega arith
forget-left (Slot.settled op status body) = omega arith

deployment_row-refused :
    (request : Text) (row : IdempotencyRecord) → is_granted (deployment_row request row) ≡ false
unfolding deployment_row replay_of
deployment_row-refused request row = ground arith

-- A deployment that is granted took a free key, and settled it.
queue-granted :
    (keyed : Text → Text) (route kh r key request : Text) (wanted : DeploymentRequest)
    (request_id id : Uuid) (body : Text) (now : Time) (store : MutationStore)
    → (is_client wanted && targets route kh r (keyed key)) ≡ true
    → let claimed =
        claim_deployment (λ id. body) keyed r key request request_id wanted id now store in
      (is_granted claimed.1 ≡ false)
      ⊎ ((slot_of route kh store ≡ Slot.free)
          × (slot_of route kh claimed.0
              ≡ Slot.settled (record { id = id; request = request }) 202 body))
unfolding slot_of
queue-granted keyed route kh r key request wanted request_id id body now store hit =
    let (admin, (r', k')) = own_key route kh r (keyed key) wanted hit in
    elim (claim_deployment-records (λ id. body) keyed r key request wanted request_id id now
      store) [
        | inl (valid, (free, (admitted, (e, answer)))) ↦
            let free' : find_where (in_slot "admin" route kh) store.records ≡ none =
              rw (admin, r', k') at free in
            let taken : (is_client wanted && (targets route kh r (keyed key) && validate_key key))
                ≡ true =
              ground arith in
            inr (
              rw free' (unfold view in refl),
              queue-slot_of keyed route kh r key request wanted request_id id body now store
                  ∙ (unfold slot_step decides slot_of in
                      rw (taken, admitted, free') (unfold view queue_free in refl)),
            )
        | inr (inl (bad, answer), same) ↦ inl (rw answer refl)
        | inr (inr (inl (row, (found, answer))), same) ↦
            inl (rw answer (deployment_row-refused request row))
        | inr (inr (inr (refused, answer)), same) ↦ inl (rw answer refl)
      ]

queue_free-left :
    (b : Bool) (new : Operation) (body : Text) (slot : Slot)
    → left (queue_free b new body slot) ≤ left slot
unfolding left queue_free
queue_free-left true new body Slot.free = omega arith
queue_free-left true new body (Slot.busy op) = omega arith
queue_free-left true new body (Slot.parked op) = omega arith
queue_free-left true new body (Slot.settled op n b) = omega arith
queue_free-left false new body slot = omega arith

module _ (keyed : Text → Text) (route kh : Text) where
  abbrev pub interruptions : List (Time × Call) → ℕ
  interruptions [] = 0
  interruptions ((now, c) ∷ cs) = interruption route kh keyed c + interruptions cs

  abbrev pub grants : MutationStore → List (Time × Call) → ℕ
  grants store [] = 0
  grants store ((now, c) ∷ cs) =
      grant route kh keyed store now c + grants (step keyed store (now, c)) cs

  -- The collections of a run that deleted the row of the key.
  abbrev pub deletions : MutationStore → List (Time × Call) → ℕ
  deletions store [] = 0
  deletions store ((now, c) ∷ cs) =
      deletion route kh keyed store c + deletions (step keyed store (now, c)) cs

  queue-left :
      (r key request : Text) (wanted : DeploymentRequest) (request_id id : Uuid) (body : Text)
      (now : Time) (store : MutationStore)
      → let c = Call.queues r key request request_id wanted id body in
        grant route kh keyed store now c
          + left (
              slot_step keyed route kh (slot_of route kh store) (decides keyed route kh store c, c))
        ≤ left (slot_of route kh store)
  unfolding slot_step left
  queue-left r key request wanted request_id id body now store =
      elim (Bool-cases (is_client wanted && targets route kh r (keyed key))) [
        | inr miss ↦
            let skipped : (is_client wanted && (targets route kh r (keyed key) && validate_key key))
                ≡ false =
              ground arith in
            rw (miss, skipped) (omega arith)
        | inl hit ↦
            let seen =
              queue-slot_of keyed route kh r key request wanted request_id id body now store in
            elim (queue-granted keyed route kh r key request wanted request_id id body now store
              hit) [
                | inl refused ↦ ground (
                  arith,
                  queue_free-left
                      (decides keyed route kh store
                        (Call.queues r key request request_id wanted id body))
                      (record { id = id; request = request }) body (slot_of route kh store),
                )
                | inr (free, settled) ↦
                    let spent = ap left (sym seen ∙ settled) in
                    let fresh_left = ap left free in ground arith
              ]
      ]

  slot_step-left :
      (store : MutationStore) (now : Time) (c : Call)
      → grant route kh keyed store now c
          + left (
              slot_step keyed route kh (slot_of route kh store) (decides keyed route kh store c, c))
        ≤ left (slot_of route kh store)
          + (interruption route kh keyed c + deletion route kh keyed store c)
  unfolding slot_step
  slot_step-left store now (Call.claims r key request request_id id) = ground (
    arith,
    claim-granted keyed route kh r key request request_id id now store,
    claim_free-left (record { id = id; request = request }) (slot_of route kh store),
  )
  slot_step-left store now (Call.finishes r key status body code request_id) =
      ground (arith, settle-left status body (slot_of route kh store))
  slot_step-left store now (Call.interrupts r key request_id) =
      ground (arith, park-left (slot_of route kh store))
  slot_step-left store now Call.interrupts_all = ground (arith, park-left (slot_of route kh store))
  slot_step-left store now (Call.queues r key request request_id wanted id body) =
      omega (arith, queue-left r key request wanted request_id id body now store)
  slot_step-left store now (Call.collects cutoff rows) =
      ground (arith, forget-left (slot_of route kh store))
  slot_step-left store now _ = omega arith

  grants-left :
      (store : MutationStore) (cs : List (Time × Call))
      → IsIntact store.records
      → grants store cs ≤ left (slot_of route kh store) + (interruptions cs + deletions store cs)
  grants-left store [] w = omega arith
  grants-left store ((now, c) ∷ cs) w =
      let rest =
        rw (step-slot_of keyed route kh store now c w) at
          (grants-left (step keyed store (now, c)) cs (step-IsIntact keyed store now c w)) in
      omega (arith, slot_step-left store now c, rest)

  -- In any sequence of the service's calls on its table, deployments and collections
  -- included, a key is granted once, and at most
  -- once more for each interruption and for each collection that deletes the row of the key.
  pub grants_bounded :
      (store : MutationStore) (cs : List (Time × Call))
      → IsIntact store.records
      → grants store cs ≤ 1 + (interruptions cs + deletions store cs)
  grants_bounded store cs w =
      omega (arith, grants-left store cs w, left_le (slot_of route kh store))
