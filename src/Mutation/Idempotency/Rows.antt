-- ===== src/Mutation/Idempotency/Rows.antt =====
-- The rows that IdempotencyService reads and writes (src/mutation/idempotency.rs,
-- migrations/202608290001_m3_mutations.sql), and what its statements select and set.
use solodock.Base.{
  ℕ, suc, String, Bool, true, false, ◌&&◌, Option, none, some, List, [], ◌∷◌, max, leb, ◌==◌, ltb,
  text_eq, if◌then◌else◌, all, length,
}
use solodock.Base.Text.{Text, same}
use solodock.Database.{Uuid, Time, Database}

pub data RecordStatus : Type 0 where
  pending succeeded interrupted failed : RecordStatus

-- The column `effect_phase`, where it is not NULL.
pub data MarkerPhase : Type 0 where
  effect_started effect_completed : MarkerPhase

pub record IdempotencyRecord : Type 0 where
  pub rowid : ℕ
  pub actor : String
  pub route : Text
  pub key_hmac : Text
  pub request_hmac : Text
  pub operation_id : Uuid
  pub status : RecordStatus
  pub response_status : Option ℕ
  pub response_body : Option Text
  pub error_code : Option Text
  pub effect_phase : Option MarkerPhase
  pub pre_container_id : Option Text
  pub pre_started_at : Option Text
  pub post_container_id : Option Text
  pub created_at : Time
  pub updated_at : Time

-- A row of `audit_events` that the service inserts. The target is the operation or NULL.
pub record MutationAudit : Type 0 where
  pub actor : String
  pub request_id : Uuid
  pub action : Text
  pub target_id : Option Uuid
  pub outcome : String
  pub created_at : Time

-- The columns of `storage_cleanup_operations` and `app_unregistrations` that the service reads.
pub record CleanupOperation : Type 0 where
  pub operation_id : Uuid
  pub retirement_pending : Bool

pub record Unregistration : Type 0 where
  pub app_id : Uuid
  pub operation_id : Uuid
  pub finalized : Bool

pub record MutationStore : Type 0 where
  pub records : List IdempotencyRecord
  pub audits : List MutationAudit
  pub cleanups : List CleanupOperation
  pub unregistrations : List Unregistration
  pub ledger : Database

-- `store_failed` is an error of the files of a store, passed on. `panicked` is no error of the source: `Row::get` panics on a NULL column.
pub data IdempotencyError : Type 0 where
  key_invalid reused in_progress record_invalid store_failed panicked : IdempotencyError

pub data ClaimResult : Type 0 where
  fresh : Uuid → ClaimResult
  resume : Uuid → ClaimResult
  replay : Uuid → ℕ → Text → ClaimResult

pub record EffectMarker : Type 0 where
  pub phase : MarkerPhase
  pub pre_container_id : Option Text
  pub pre_started_at : Option Text
  pub post_container_id : Option Text

-- `validate_key`: 16 to 128 bytes, all of them visible ASCII.
unfoldable pub validate_key : Text → Bool
validate_key value =
    (leb 16 (length value) && leb (length value) 128) && all (λ b. leb 33 b && leb b 126) value

-- `WHERE actor=? AND route=? AND key_hmac=?`, the primary key.
unfoldable pub in_slot : String → Text → Text → IdempotencyRecord → Bool
in_slot actor route key_hmac row =
    text_eq row.actor actor && (same row.route route && same row.key_hmac key_hmac)

abbrev pub is_pending : IdempotencyRecord → Bool
is_pending row = elim row.status [ RecordStatus.pending ↦ true | _ ↦ false ]

-- `status IN ('succeeded','failed')`.
unfoldable pub is_settled : RecordStatus → Bool
is_settled RecordStatus.succeeded = true
is_settled RecordStatus.failed = true
is_settled _ = false

abbrev pub has_rowid : ℕ → IdempotencyRecord → Bool
has_rowid rowid row = row.rowid == rowid

-- The rowid that SQLite gives the next row.
unfoldable pub next_rowid : List IdempotencyRecord → ℕ
next_rowid [] = 1
next_rowid (r ∷ rs) = max (suc r.rowid) (next_rowid rs)

-- The row that a claim inserts; the columns that the statement leaves out are NULL.
unfoldable pub pending_record : ℕ → String → Text → Text → Text → Uuid → Time → IdempotencyRecord
pending_record rowid actor route key_hmac request_hmac operation_id now = record {
  rowid = rowid;
  actor = actor;
  route = route;
  key_hmac = key_hmac;
  request_hmac = request_hmac;
  operation_id = operation_id;
  status = RecordStatus.pending;
  response_status = none;
  response_body = none;
  error_code = none;
  effect_phase = none;
  pre_container_id = none;
  pre_started_at = none;
  post_container_id = none;
  created_at = now;
  updated_at = now;
}

-- The columns that an interruption, a resumption and `finish` set.
unfoldable pub interrupt_record : Time → IdempotencyRecord → IdempotencyRecord
interrupt_record now row = record row { status = RecordStatus.interrupted; updated_at = now }

unfoldable pub resume_record : Time → IdempotencyRecord → IdempotencyRecord
resume_record now row = record row { status = RecordStatus.pending; updated_at = now }

abbrev pub result_of : ℕ → RecordStatus
result_of status = if ltb status 400 then RecordStatus.succeeded else RecordStatus.failed

unfoldable pub finish_record : ℕ → Text → Option Text → Time → IdempotencyRecord → IdempotencyRecord
finish_record status body error_code now row = record row {
  status = result_of status;
  response_status = some status;
  response_body = some body;
  error_code = error_code;
  updated_at = now;
}
