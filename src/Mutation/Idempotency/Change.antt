-- ===== src/Mutation/Idempotency/Change.antt =====
-- What one call does to the table of operations (src/mutation/idempotency.rs).
use solodock.Mutation.Idempotency.Operations.{
  interrupt_pending, insert_record, mark_interrupted, claim_found, finish, claim_slot, claim_row,
  claim,
}
use solodock.Mutation.Idempotency.Effects.{
  can_start, mark_effect_completed, mark_effect_observed, mark_effect_started, start_marker,
  observe_marker, complete_marker,
}
use solodock.Mutation.Idempotency.Operations.{insert_audit}
use mathlib.Core.Bool.{false≢true}
use solodock.Base.{
  ap, ℕ, Bool, true, false, ◌&&◌, is_some, Option, none, List, [], ◌∷◌, ◌++◌, ◌≡◌, refl, ◌⊎◌, inl,
  inr, arith, sym, ◌∙◌, Bool-cases, Option-cases, String,
}
use solodock.Base.Table.{find_where, update_where}
use solodock.Base.Text.{Text, same}
use solodock.Database.{Uuid, Time}
use solodock.Mutation.Idempotency.Rows.{
  next_rowid, pending_record, validate_key, is_settled, MutationStore, resume_record,
  interrupt_record, finish_record, IdempotencyRecord, RecordStatus, in_slot,
}
use solodock.Mutation.Idempotency.Calls.{Call, step}
use solodock.Mutation.Idempotency.Slot.{is_answered}
use solodock.Mutation.Idempotency.Scheduling.{
  DeploymentRequest, actor_of, accept_record, claim_deployment,
}
use solodock.Mutation.Idempotency.Queued.{queued_answer, claim_deployment-records}

-- The row's marker is set, and says what was seen before the effect.
pub record SameMarker (row next : IdempotencyRecord) : Type 0 where
  pub marked : is_some next.effect_phase ≡ true
  pub container : next.pre_container_id ≡ row.pre_container_id
  pub started_at : next.pre_started_at ≡ row.pre_started_at

pub record Keeps (p : IdempotencyRecord → Bool) (f : IdempotencyRecord → IdempotencyRecord)
    : Type 0 where
  pub slot :
      (actor : String) (route kh : Text) (row : IdempotencyRecord)
      → in_slot actor route kh (f row) ≡ in_slot actor route kh row
  pub operation : (row : IdempotencyRecord) → (f row).operation_id ≡ row.operation_id
  pub rowid : (row : IdempotencyRecord) → (f row).rowid ≡ row.rowid
  pub marker :
      (row : IdempotencyRecord)
      → p row ≡ true
      → is_some row.effect_phase ≡ true
      → SameMarker row (f row)
  pub answered : (row : IdempotencyRecord) → is_answered row ≡ true → is_answered (f row) ≡ true

pub data Change (rows next : List IdempotencyRecord) : Type 0 where
  kept : next ≡ rows → Change rows next
  inserted :
      (row : IdempotencyRecord)
      → find_where (in_slot row.actor row.route row.key_hmac) rows ≡ none
      → is_answered row ≡ true
      → row.rowid ≡ next_rowid rows
      → next ≡ rows ++ row ∷ []
      → Change rows next
  updated :
      (p : IdempotencyRecord → Bool) (f : IdempotencyRecord → IdempotencyRecord)
      → Keeps p f
      → next ≡ update_where p f rows
      → Change rows next

interrupt-Keeps : (p : IdempotencyRecord → Bool) (now : Time) → Keeps p (interrupt_record now)
unfolding interrupt_record in_slot is_answered is_settled
interrupt-Keeps p now = record {
  slot = λ actor route kh row. refl;
  operation = λ row. refl;
  rowid = λ row. refl;
  marker = λ row e h. record { marked = h; container = refl; started_at = refl };
  answered = λ row h. refl;
}

resume-Keeps : (p : IdempotencyRecord → Bool) (now : Time) → Keeps p (resume_record now)
unfolding resume_record in_slot is_answered is_settled
resume-Keeps p now = record {
  slot = λ actor route kh row. refl;
  operation = λ row. refl;
  rowid = λ row. refl;
  marker = λ row e h. record { marked = h; container = refl; started_at = refl };
  answered = λ row h. refl;
}

finish-Keeps :
    (p : IdempotencyRecord → Bool) (status : ℕ) (body : Text) (code : Option Text) (now : Time)
    → Keeps p (finish_record status body code now)
unfolding finish_record in_slot is_answered is_settled
finish-Keeps p status body code now = record {
  slot = λ actor route kh row. refl;
  operation = λ row. refl;
  rowid = λ row. refl;
  marker = λ row e h. record { marked = h; container = refl; started_at = refl };
  answered = λ row h. ground arith;
}

can_start-unmarked :
    (b : Bool) (row : IdempotencyRecord)
    → (b && can_start row) ≡ true
    → is_some row.effect_phase ≡ false
unfolding can_start
can_start-unmarked b row h = ground arith

start-Keeps :
    (p : IdempotencyRecord → Bool) (container started_at : Option Text) (now : Time)
    → ((row : IdempotencyRecord) → p row ≡ true → is_some row.effect_phase ≡ false)
    → Keeps p (start_marker container started_at now)
unfolding start_marker in_slot is_answered
start-Keeps p container started_at now guard = record {
  slot = λ actor route kh row. refl;
  operation = λ row. refl;
  rowid = λ row. refl;
  marker = λ row e h. absurd (false≢true (sym (guard row e) ∙ h));
  answered = λ row h. h;
}

observe-Keeps :
    (p : IdempotencyRecord → Bool) (container : Text) (now : Time)
    → Keeps p (observe_marker container now)
unfolding observe_marker in_slot is_answered
observe-Keeps p container now = record {
  slot = λ actor route kh row. refl;
  operation = λ row. refl;
  rowid = λ row. refl;
  marker = λ row e h. record { marked = h; container = refl; started_at = refl };
  answered = λ row h. h;
}

complete-Keeps : (p : IdempotencyRecord → Bool) (now : Time) → Keeps p (complete_marker now)
unfolding complete_marker in_slot is_answered
complete-Keeps p now = record {
  slot = λ actor route kh row. refl;
  operation = λ row. refl;
  rowid = λ row. refl;
  marker = λ row e h. record { marked = refl; container = refl; started_at = refl };
  answered = λ row h. h;
}

status-Change :
    (r k request : Text) (now : Time) (row : IdempotencyRecord) (store : MutationStore)
    (status : RecordStatus)
    → row.status ≡ status
    → same row.request_hmac request ≡ true
    → Change store.records (claim_row r k request now row store).0.records
unfolding claim_row
status-Change r k request now row store RecordStatus.interrupted e this =
    rw (this, e) (updated (in_slot "admin" r k) (resume_record now) (resume-Keeps _ now) refl)
status-Change r k request now row store RecordStatus.pending e this = rw (this, e) (kept refl)
status-Change r k request now row store RecordStatus.succeeded e this = rw (this, e) (kept refl)
status-Change r k request now row store RecordStatus.failed e this = rw (this, e) (kept refl)

claim_row-Change :
    (r k request : Text) (now : Time) (row : IdempotencyRecord) (store : MutationStore)
    → Change store.records (claim_row r k request now row store).0.records
unfolding claim_row
claim_row-Change r k request now row store = elim (Bool-cases (same row.request_hmac request)) [
  | inr other ↦ rw other (kept refl)
  | inl this ↦ status-Change r k request now row store row.status refl this
]

claim_slot-Change :
    (r k request : Text) (request_id id : Uuid) (now : Time) (store : MutationStore)
    → Change store.records (claim_slot r k request request_id id now store).0.records
unfolding claim_slot
claim_slot-Change r k request request_id id now store =
    elim (Option-cases (find_where (in_slot "admin" r k) store.records)) [
      | inl e ↦
          rw (e, claim_found, insert_audit, insert_record)
            (unfold pending_record is_answered is_settled in inserted _ e refl refl refl)
      | inr (row, e) ↦ rw (e, claim_found) (claim_row-Change r k request now row store)
    ]

queued_answer-answered :
    (actor : String) (route kh request : Text) (id : Uuid) (body : Text) (now : Time)
    (rows : List IdempotencyRecord)
    → is_answered (queued_answer actor route kh request id body now rows) ≡ true
unfolding is_answered is_settled accept_record pending_record
queued_answer-answered actor route kh request id body now rows = refl

claim_deployment-Change :
    (keyed : Text → Text) (route key request : Text) (wanted : DeploymentRequest)
    (request_id id : Uuid) (body : Text) (now : Time) (store : MutationStore)
    → Change store.records
        (claim_deployment
          (λ id. body)
          keyed
          route
          key
          request
          request_id
          wanted
          id
          now
          store).0.records
unfolding accept_record pending_record
claim_deployment-Change keyed route key request wanted request_id id body now store =
    let actor = actor_of wanted.trigger in
    elim (claim_deployment-records (λ id. body) keyed route key request wanted request_id id now
      store) [
        | inl (valid, (free, (admitted, (e, answer)))) ↦
            inserted (queued_answer actor route (keyed key) request id body now store.records) free
              (queued_answer-answered actor route (keyed key) request id body now store.records)
              refl e
        | inr (why, same) ↦ kept (ap (λ (s : MutationStore). s.records) same)
      ]

abbrev pub is_collection : Call → Bool
is_collection (Call.collects cutoff rows) = true
is_collection _ = false

-- Every call is a collection, or changes the table without deleting.
pub collection-cases :
    (c : Call)
    → (is_collection c ≡ false)
      ⊎ ((cutoff : Time) × ((rows : List (ℕ × Uuid)) × (c ≡ Call.collects cutoff rows)))
collection-cases (Call.collects cutoff rows) = inr (cutoff, (rows, refl))
collection-cases (Call.claims _ _ _ _ _) = inl refl
collection-cases (Call.finishes _ _ _ _ _ _) = inl refl
collection-cases (Call.interrupts _ _ _) = inl refl
collection-cases Call.interrupts_all = inl refl
collection-cases (Call.starts _ _ _ _) = inl refl
collection-cases (Call.observes _ _ _) = inl refl
collection-cases (Call.completes _ _) = inl refl
collection-cases (Call.queues _ _ _ _ _ _ _) = inl refl

module _ (keyed : Text → Text) where
  claim-Change :
      (r key request : Text) (request_id id : Uuid) (now : Time) (store : MutationStore)
      → Change store.records (claim keyed r key request request_id id now store).0.records
  unfolding claim
  claim-Change r key request request_id id now store = elim (Bool-cases (validate_key key)) [
    | inl good ↦ rw good (claim_slot-Change r (keyed key) request request_id id now store)
    | inr bad ↦ rw bad (kept refl)
  ]

  pub step-Change :
      (store : MutationStore) (now : Time) (c : Call)
      → is_collection c ≡ false
      → Change store.records (step keyed store (now, c)).records
  unfolding step insert_audit finish mark_interrupted interrupt_pending mark_effect_started
      mark_effect_observed mark_effect_completed
  step-Change store now (Call.claims r key request request_id id) plain =
      claim-Change r key request request_id id now store
  step-Change store now (Call.finishes r key status body code request_id) plain =
      updated _ _ (finish-Keeps _ status body code now) refl
  step-Change store now (Call.interrupts r key request_id) plain =
      updated _ _ (interrupt-Keeps _ now) refl
  step-Change store now Call.interrupts_all plain = updated _ _ (interrupt-Keeps _ now) refl
  step-Change store now (Call.starts r key container started_at) plain =
      updated _ _ (start-Keeps _ container started_at now (λ row e. can_start-unmarked _ row e))
        refl
  step-Change store now (Call.observes r key container) plain =
      updated _ _ (observe-Keeps _ container now) refl
  step-Change store now (Call.completes r key) plain = updated _ _ (complete-Keeps _ now) refl
  step-Change store now (Call.queues r key request request_id wanted id body) plain =
      claim_deployment-Change keyed r key request wanted request_id id body now store
  step-Change store now (Call.collects cutoff rows) plain = absurd cc
