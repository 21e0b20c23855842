-- ===== src/Mutation/Idempotency/Views.antt =====
-- What the statements of IdempotencyService do to the slot of a key (src/mutation/idempotency.rs).
use solodock.Base.{
  ok, Result, ℕ, Bool, true, false, ◌&&◌, Option, none, some, if◌then◌else◌, ◌≡◌, refl, inl, inr,
  arith, sym, ap, ◌∙◌, Bool-cases, Option-cases, text_eq,
}
use solodock.Base.Table.{find_where, find_where_sound, find_where-update_map}
use solodock.Base.Text.{same_refl, Text, same_iff}
use solodock.Database.{Uuid, Time}
use solodock.Mutation.Idempotency.Rows.{
  is_settled, IdempotencyRecord, MutationStore, IdempotencyError, ClaimResult, in_slot, is_pending,
  interrupt_record, resume_record, finish_record,
}
use solodock.Mutation.Idempotency.Operations.{replay_of, claim_row, update_records}
use solodock.Mutation.Idempotency.Effects.{
  can_start, can_observe, can_complete, start_marker, observe_marker, complete_marker,
}
use solodock.Mutation.Idempotency.Slot.{
  is_answered, Slot, claim_free, settle, park, view, slot_of, targets, owner,
}

-- A row in one slot is in another exactly when the keys are the same.
in_slot-targets :
    (route kh r k : Text) (row : IdempotencyRecord)
    → in_slot "admin" route kh row ≡ true
    → in_slot "admin" r k row ≡ targets route kh r k
unfolding in_slot
in_slot-targets route kh r k row h =
    let admin : text_eq row.actor "admin" ≡ true = ground arith in
    let route' : row.route ≡ route = (same_iff row.route route).0 (ground arith) in
    let kh' : row.key_hmac ≡ kh = (same_iff row.key_hmac kh).0 (ground arith) in
    rw (admin, route', kh') refl

-- What an update of the rows that `g` selects does to the slots is `act`.
pub record Acts (g : IdempotencyRecord → Bool) (f : IdempotencyRecord → IdempotencyRecord)
    (act : Slot → Slot) : Type 0 where
  keeps :
      (route kh : Text) (row : IdempotencyRecord)
      → in_slot "admin" route kh (f row) ≡ in_slot "admin" route kh row
  on_free : act Slot.free ≡ Slot.free
  on_row :
      (row : IdempotencyRecord) → view (some (if g row then f row else row)) ≡ act (view (some row))

view-free :
    (act : Slot → Slot) (b : Bool)
    → act Slot.free ≡ Slot.free
    → Slot.free ≡ (if b then act Slot.free else Slot.free)
view-free act true h = sym h
view-free act false h = refl

view-row :
    (g : IdempotencyRecord → Bool) (f : IdempotencyRecord → IdempotencyRecord) (act : Slot → Slot)
    (row : IdempotencyRecord) (b : Bool)
    → view (some (if g row then f row else row)) ≡ act (view (some row))
    → view (some (if b && g row then f row else row))
      ≡ (if b then act (view (some row)) else view (some row))
view-row g f act row true h = h
view-row g f act row false h = refl

pub slot_of-update :
    (p g : IdempotencyRecord → Bool) (f : IdempotencyRecord → IdempotencyRecord) (act : Slot → Slot)
    (acts : Acts g f act) (route kh : Text) (b : Bool) (store : MutationStore)
    → ((row : IdempotencyRecord) → in_slot "admin" route kh row ≡ true → p row ≡ (b && g row))
    → slot_of route kh (update_records p f store)
      ≡ (if b then act (slot_of route kh store) else slot_of route kh store)
unfolding slot_of view
slot_of-update p g f act acts route kh b store h =
    let q = in_slot "admin" route kh in
    let moved = find_where-update_map p q f store.records (λ row. acts.keeps route kh row) in
    elim (Option-cases (find_where q store.records)) [
      | inl e ↦ rw (moved, e) (view-free act b acts.on_free)
      | inr (row, e) ↦
          rw (moved, e, h row (find_where_sound q store.records row e))
            (view-row g f act row b (acts.on_row row))
    ]

-- The updates of the operations, of the rows of one key.
pub slot_of-update_slot :
    (g : IdempotencyRecord → Bool) (f : IdempotencyRecord → IdempotencyRecord) (act : Slot → Slot)
    (acts : Acts g f act) (route kh r k : Text) (store : MutationStore)
    → slot_of route kh (update_records (λ row. in_slot "admin" r k row && g row) f store)
      ≡ (if targets route kh r k then act (slot_of route kh store) else slot_of route kh store)
slot_of-update_slot g f act acts route kh r k store =
    slot_of-update (λ row. in_slot "admin" r k row && g row) g f act acts route kh
      (targets route kh r k) store
      (λ row h. ap (λ b. b && g row) (in_slot-targets route kh r k row h))

pub slot_of-update_key :
    (f : IdempotencyRecord → IdempotencyRecord) (act : Slot → Slot)
    (acts : Acts (λ row. true) f act) (route kh r k : Text) (store : MutationStore)
    → slot_of route kh (update_records (in_slot "admin" r k) f store)
      ≡ (if targets route kh r k then act (slot_of route kh store) else slot_of route kh store)
slot_of-update_key f act acts route kh r k store =
    slot_of-update (in_slot "admin" r k) (λ row. true) f act acts route kh (targets route kh r k)
      store (λ row h. ground (arith, in_slot-targets route kh r k row h))

pub interrupt-Acts : (now : Time) → Acts is_pending (interrupt_record now) park
unfolding interrupt_record park view in_slot
interrupt-Acts now = record {
  keeps = λ route kh row. refl;
  on_free = refl;
  on_row = λ row. ground arith;
}

pub finish-Acts :
    (status : ℕ) (body : Text) (code : Option Text) (now : Time)
    → Acts (λ row. true) (finish_record status body code now) (settle status body)
unfolding finish_record settle view in_slot
finish-Acts status body code now = record {
  keeps = λ route kh row. refl;
  on_free = refl;
  on_row = λ row. ground arith;
}

marker-Acts :
    (g : IdempotencyRecord → Bool) (f : IdempotencyRecord → IdempotencyRecord)
    → ((route kh : Text) (row : IdempotencyRecord)
        → in_slot "admin" route kh (f row) ≡ in_slot "admin" route kh row)
    → ((row : IdempotencyRecord) → view (some (f row)) ≡ view (some row))
    → Acts g f (λ slot. slot)
marker-Acts g f keeps seen = record {
  keeps = keeps;
  on_free = refl;
  on_row = λ row. elim (Bool-cases (g row)) [ inl e ↦ rw e (seen row) | inr e ↦ rw e refl ];
}

pub start-Acts :
    (container started_at : Option Text) (now : Time)
    → Acts can_start (start_marker container started_at now) (λ slot. slot)
unfolding start_marker view in_slot
start-Acts container started_at now =
    marker-Acts can_start (start_marker container started_at now) (λ route kh row. refl)
      (λ row. refl)

pub observe-Acts :
    (container : Text) (now : Time)
    → Acts (can_observe container) (observe_marker container now) (λ slot. slot)
unfolding observe_marker view in_slot
observe-Acts container now =
    marker-Acts (can_observe container) (observe_marker container now) (λ route kh row. refl)
      (λ row. refl)

pub complete-Acts : (now : Time) → Acts can_complete (complete_marker now) (λ slot. slot)
unfolding complete_marker view in_slot
complete-Acts now =
    marker-Acts can_complete (complete_marker now) (λ route kh row. refl) (λ row. refl)

pub if_same {ℓ} : {A : Type ℓ} (b : Bool) (x : A) → (if b then x else x) ≡ x
if_same true x = refl
if_same false x = refl

-- A resumption of the operation of a key.
resumed : Slot → Slot
resumed slot = elim (owner slot) [ none ↦ Slot.free | some op ↦ Slot.busy op ]

resume-Acts : (now : Time) → Acts (λ row. true) (resume_record now) resumed
unfolding resumed resume_record view in_slot
resume-Acts now = record {
  keeps = λ route kh row. refl;
  on_free = refl;
  on_row = λ row. ground arith;
}

slot_of-resume :
    (r k : Text) (now : Time) (store : MutationStore)
    → slot_of r k (update_records (in_slot "admin" r k) (resume_record now) store)
      ≡ resumed (slot_of r k store)
slot_of-resume r k now store =
    slot_of-update (in_slot "admin" r k) (λ row. true) (resume_record now) resumed (resume-Acts now)
      r k true store (λ row h. h)

slot_of-resume_other :
    (route kh r k : Text) (now : Time) (store : MutationStore)
    → targets route kh r k ≡ false
    → slot_of route kh (update_records (in_slot "admin" r k) (resume_record now) store)
      ≡ slot_of route kh store
slot_of-resume_other route kh r k now store miss =
    slot_of-update (in_slot "admin" r k) (λ row. true) (resume_record now) resumed (resume-Acts now)
      route kh false store (λ row h. in_slot-targets route kh r k row h ∙ miss)

pub claim_row-own :
    (r k request : Text) (id : Uuid) (now : Time) (row : IdempotencyRecord) (store : MutationStore)
    → find_where (in_slot "admin" r k) store.records ≡ some row
    → slot_of r k (claim_row r k request now row store).0
      ≡ (claim_free (record { id = id; request = request }) (view (some row))).0
unfolding claim_row claim_free view resumed
claim_row-own r k request id now row store e =
    let seen : slot_of r k store ≡ view (some row) = unfold slot_of in ap view e in
    ground (arith, slot_of-resume r k now store, seen)

pub claim_row-other :
    (route kh r k request : Text) (now : Time) (row : IdempotencyRecord) (store : MutationStore)
    → targets route kh r k ≡ false
    → slot_of route kh (claim_row r k request now row store).0 ≡ slot_of route kh store
unfolding claim_row
claim_row-other route kh r k request now row store miss =
    ground (arith, slot_of-resume_other route kh r k now store miss)

pub claim_row-answer :
    (r k request : Text) (id : Uuid) (now : Time) (row : IdempotencyRecord) (store : MutationStore)
    → is_answered row ≡ true
    → (claim_row r k request now row store).1
      ≡ (claim_free (record { id = id; request = request }) (view (some row))).1
unfolding claim_row claim_free view is_answered is_settled replay_of
claim_row-answer r k request id now row store h = ground arith

-- The claims that let their caller do the work.
abbrev pub is_granted : Result IdempotencyError ClaimResult → Bool
is_granted (ok (ClaimResult.fresh id)) = true
is_granted (ok (ClaimResult.resume id)) = true
is_granted _ = false

pub claim_row-granted :
    (r k request : Text) (id : Uuid) (now : Time) (row : IdempotencyRecord) (store : MutationStore)
    → is_granted (claim_row r k request now row store).1
      ≡ is_granted (claim_free (record { id = id; request = request }) (view (some row))).1
unfolding claim_row claim_free view replay_of
claim_row-granted r k request id now row store = ground arith

pub targets_refl : (route kh : Text) → targets route kh route kh ≡ true
targets_refl route kh = ground (arith, same_refl route, same_refl kh)
