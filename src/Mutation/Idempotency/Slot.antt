-- ===== src/Mutation/Idempotency/Slot.antt =====
-- The contract of IdempotencyService (src/mutation/idempotency.rs) for one key of one route, without
-- tables: whether an operation owns the key, whether it is at work, and what it answered.
use solodock.Base.{
  is_some, ◌||◌, not, ℕ, Bool, ◌&&◌, true, false, ◌==◌, ◌%◌, Option, none, some, List, [], ◌∷◌,
  if◌then◌else◌, Result, ok, err,
}
use solodock.Base.Table.{find_where, count_where}
use solodock.Base.Text.{Text, same}
use solodock.Database.{Uuid, Time}
use solodock.Mutation.Idempotency.Rows.{
  is_settled, IdempotencyRecord, MutationStore, IdempotencyError, ClaimResult, RecordStatus,
  validate_key, in_slot,
}
use solodock.Mutation.Idempotency.Gc.{collect}
use solodock.Mutation.Idempotency.Scheduling.{DeploymentRequest}
use solodock.Deploy.Ledger.{violates_unique, is_poll}
use solodock.Mutation.Idempotency.Calls.{Call, step}

pub record Operation : Type 0 where
  pub id : Uuid
  pub request : Text

pub data Slot : Type 0 where
  free : Slot
  busy : Operation → Slot
  parked : Operation → Slot
  settled : Operation → ℕ → Text → Slot

abbrev pub owner : Slot → Option Operation
owner Slot.free = none
owner (Slot.busy op) = some op
owner (Slot.parked op) = some op
owner (Slot.settled op status body) = some op

-- A claim of the key for a request, with an id for a new operation.
unfoldable pub claim_free : Operation → Slot → Slot × Result IdempotencyError ClaimResult
claim_free new Slot.free = (Slot.busy new, ok (ClaimResult.fresh new.id))
claim_free new (Slot.busy op) = (
  Slot.busy op,
  (if same op.request new.request
      then err IdempotencyError.in_progress
      else err IdempotencyError.reused),
)
claim_free new (Slot.parked op) =
    if same op.request new.request
    then (Slot.busy op, ok (ClaimResult.resume op.id))
    else (Slot.parked op, err IdempotencyError.reused)
claim_free new (Slot.settled op status body) = (
  Slot.settled op status body,
  (if same op.request new.request
      then ok (ClaimResult.replay op.id status body)
      else err IdempotencyError.reused),
)

unfoldable pub settle : ℕ → Text → Slot → Slot
settle status body slot = elim (owner slot) [
  | none ↦ Slot.free
  | some op ↦ Slot.settled op (status % 65536) body
]

unfoldable pub park : Slot → Slot
park (Slot.busy op) = Slot.parked op
park slot = slot

-- A deployment takes a free key, when the ledger admits it, and settles it at once.
unfoldable pub queue_free : Bool → Operation → Text → Slot → Slot
queue_free true new body Slot.free = Slot.settled new 202 body
queue_free _ new body slot = slot

-- A collection forgets a settled operation only.
unfoldable pub forget : Slot → Slot
forget (Slot.settled op status body) = Slot.free
forget slot = slot

-- The slot of a key reads the row of the key.
abbrev pub answer_status : IdempotencyRecord → ℕ
answer_status row = elim row.response_status [ none ↦ 0 | some status ↦ status % 65536 ]

abbrev pub answer_body : IdempotencyRecord → Text
answer_body row = elim row.response_body [ none ↦ [] | some body ↦ body ]

abbrev pub operation_of : IdempotencyRecord → Operation
operation_of row = record { id = row.operation_id; request = row.request_hmac }

unfoldable pub view : Option IdempotencyRecord → Slot
view none = Slot.free
view (some row) = elim row.status [
  | RecordStatus.pending ↦ Slot.busy (operation_of row)
  | RecordStatus.interrupted ↦ Slot.parked (operation_of row)
  | _ ↦ Slot.settled (operation_of row) (answer_status row) (answer_body row)
]

unfoldable pub slot_of : Text → Text → MutationStore → Slot
unfolding view in_slot
slot_of route key_hmac store = view (find_where (in_slot "admin" route key_hmac) store.records)

-- A row that is settled has its answer, which a replay reads.
unfoldable pub is_answered : IdempotencyRecord → Bool
unfolding is_settled
is_answered row =
    not (is_settled row.status) || (is_some row.response_status && is_some row.response_body)

-- The call is about the key.
abbrev pub targets : Text → Text → Text → Text → Bool
targets route key_hmac r k = same route r && same key_hmac k

-- A deployment that a client asks for is in the slots of clients.
abbrev pub is_client : DeploymentRequest → Bool
is_client wanted = not (is_poll wanted.trigger)

module _ (keyed : Text → Text) (route key_hmac : Text) where
  -- What a call does to the slot; the effect markers are no part of the contract. The contract leaves
  -- open whether the ledger admits a deployment, and whether a collection deletes the row of the key:
  -- that is the Boolean.
  unfoldable pub slot_step : Slot → Bool × Call → Slot
  unfolding claim_free settle park validate_key queue_free forget
  slot_step slot (decided, Call.claims r key request request_id id) =
      if targets route key_hmac r (keyed key) && validate_key key
      then (claim_free (record { id = id; request = request }) slot).0
      else slot
  slot_step slot (decided, Call.finishes r key status body code request_id) =
      if targets route key_hmac r (keyed key) then settle status body slot else slot
  slot_step slot (decided, Call.interrupts r key request_id) =
      if targets route key_hmac r (keyed key) then park slot else slot
  slot_step slot (decided, Call.interrupts_all) = park slot
  slot_step slot (decided, Call.queues r key request request_id wanted id body) =
      if is_client wanted && (targets route key_hmac r (keyed key) && validate_key key)
      then queue_free decided (record { id = id; request = request }) body slot
      else slot
  slot_step slot (decided, Call.collects cutoff rows) = if decided then forget slot else slot
  slot_step slot _ = slot

  unfoldable pub slot_run : Slot → List (Bool × Call) → Slot
  unfolding slot_step
  slot_run slot [] = slot
  slot_run slot (c ∷ cs) = slot_run (slot_step slot c) cs

  -- What the tables decide on a call.
  unfoldable pub decides : MutationStore → Call → Bool
  unfolding in_slot collect violates_unique
  decides store (Call.queues r key request request_id wanted id body) =
      count_where (violates_unique id wanted.app_id) store.ledger.deployments == 0
  decides store (Call.collects cutoff rows) =
      let test = in_slot "admin" route key_hmac in
      is_some (find_where test store.records)
      && not (is_some (find_where test (collect cutoff rows store).0.records))
  decides store _ = false

  -- The calls of a run, each with what the tables decide when it comes.
  unfoldable pub history : MutationStore → List (Time × Call) → List (Bool × Call)
  unfolding decides step
  history store [] = []
  history store ((now, c) ∷ cs) = (decides store c, c) ∷ history (step keyed store (now, c)) cs
