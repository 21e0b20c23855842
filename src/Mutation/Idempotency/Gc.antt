-- ===== src/Mutation/Idempotency/Gc.antt =====
-- The garbage collection of settled operations (src/mutation/idempotency.rs). The candidates are selected
-- before the transaction that deletes them, so that other calls can come in between.
use solodock.Base.{
  ℕ, ◌+◌, Bool, ◌&&◌, ◌||◌, not, ◌==◌, ltb, leb, if◌then◌else◌, Option, none, some, List, [], ◌∷◌,
  ◌++◌, map, any, take, Result, ok, err, ◌>>=◌,
}
use solodock.Base.Table.{count_where, delete_where, select_where}
use solodock.Database.{Uuid, Time}
use solodock.Mutation.Idempotency.Rows.{
  IdempotencyRecord, IdempotencyError, MutationStore, is_settled,
}

-- `HashSet::contains`.
abbrev pub has_uuid : List Uuid → Uuid → Bool
has_uuid ids id = any (λ other. other == id) ids

-- `status IN ('succeeded','failed') AND updated_at < ?`.
unfoldable pub is_expired : Time → IdempotencyRecord → Bool
is_expired cutoff row = is_settled row.status && ltb row.updated_at cutoff

-- `ORDER BY updated_at`, by insertion.
unfoldable pub insert_by_age : IdempotencyRecord → List IdempotencyRecord → List IdempotencyRecord
insert_by_age row [] = row ∷ []
insert_by_age row (r ∷ rs) =
    let rest = insert_by_age row rs in
    if leb row.updated_at r.updated_at then row ∷ r ∷ rs else r ∷ rest

unfoldable pub by_age : List IdempotencyRecord → List IdempotencyRecord
unfolding insert_by_age
by_age [] = []
by_age (r ∷ rs) = insert_by_age r (by_age rs)

-- The first 100 candidates that no file protects.
unfoldable pub candidates : List Uuid → Time → MutationStore → List (ℕ × Uuid)
unfolding is_expired by_age
candidates protected cutoff store = take 100 (
    map (λ row. (row.rowid, row.operation_id))
      (select_where (λ row. not (has_uuid protected row.operation_id))
        (by_age (select_where (is_expired cutoff) store.records))))

-- The two `NOT EXISTS` of the deletion.
unfoldable pub is_needed : MutationStore → Uuid → Bool
is_needed store id =
    any (λ c. c.operation_id == id && c.retirement_pending) store.cleanups
    || any (λ u. u.operation_id == id && not u.finalized) store.unregistrations

-- `DELETE FROM idempotency_records WHERE …` of one candidate.
unfoldable pub is_collected : Time → MutationStore → ℕ × Uuid → IdempotencyRecord → Bool
unfolding is_expired is_needed
is_collected cutoff store (rowid, id) row =
    ((row.rowid == rowid && row.operation_id == id) && is_expired cutoff row)
    && not (is_needed store row.operation_id)

-- The deletions, with the number of rows that they delete.
unfoldable pub collect : Time → List (ℕ × Uuid) → MutationStore → MutationStore × ℕ
unfolding is_collected
collect cutoff [] store = (store, 0)
collect cutoff (row ∷ rows) store =
    let test = is_collected cutoff store row in
    let (next, deleted) =
      collect cutoff rows (record store { records = delete_where test store.records }) in
    (next, count_where test store.records + deleted)

-- `gc_terminal_records` with nothing in between.
unfoldable pub gc_terminal_records : List Uuid → Time → MutationStore → MutationStore × ℕ
unfolding candidates collect
gc_terminal_records protected cutoff store =
    collect cutoff (candidates protected cutoff store) store

-- The webhook files of one application; of the metadata, the fields that the service reads.
pub record WebhookMetadata : Type 0 where
  pub enabled : Bool
  pub metadata_revision : Uuid
  pub secret_revision : Option Uuid
  pub last_operation_id : Uuid

pub record WebhookRecoveryRevision : Type 0 where
  pub revision_id : Uuid
  pub operation_id : Uuid
  pub current : Bool

pub record WebhookRecoveryApp : Type 0 where
  pub app_id : Uuid
  pub metadata : Option WebhookMetadata
  pub revisions : List WebhookRecoveryRevision
  pub operation_temps : List Uuid

-- The operation that published the current metadata, when a stale revision is left.
unfoldable pub authority : WebhookRecoveryApp → List Uuid
authority app = elim app.metadata [
  | none ↦ []
  | some metadata ↦
      if any (λ revision. not revision.current) app.revisions
      then metadata.last_operation_id ∷ []
      else []
]

unfoldable pub webhook_operations : List WebhookRecoveryApp → List Uuid
unfolding authority
webhook_operations [] = []
webhook_operations (app ∷ apps) =
    map (λ revision. revision.operation_id) app.revisions
    ++ (app.operation_temps ++ (authority app ++ webhook_operations apps))

-- The lists that the stores read from their files, each of which can fail.
pub record ArtifactInventory : Type 0 where
  pub app_tombstones : Result IdempotencyError (List (Uuid × Uuid))
  pub cleanup_tombstones : Result IdempotencyError (List Uuid)
  pub credential_tombstones : Result IdempotencyError (List (Uuid × Uuid))
  pub webhooks : Result IdempotencyError (List WebhookRecoveryApp)

unfoldable pub protected_operation_ids : ArtifactInventory → Result IdempotencyError (List Uuid)
unfolding webhook_operations
protected_operation_ids inventory = do
  apps ← inventory.app_tombstones
  cleanups ← inventory.cleanup_tombstones
  credentials ← inventory.credential_tombstones
  webhooks ← inventory.webhooks
  ok (
      map (λ (tombstone : Uuid × Uuid). tombstone.1) apps
      ++ (cleanups
          ++ (map (λ (tombstone : Uuid × Uuid). tombstone.1) credentials
              ++ webhook_operations webhooks)))

-- The operations of clean-ups that have not retired yet.
unfoldable pub retiring : MutationStore → List Uuid
retiring store = map (λ c. c.operation_id) (select_where (λ c. c.retirement_pending) store.cleanups)

-- The collection with the ids of a complete inventory; an inventory that failed collects nothing.
unfoldable pub gc_with_ids :
    Result IdempotencyError (List Uuid)
    → Time
    → MutationStore
    → MutationStore × Result IdempotencyError ℕ
unfolding retiring gc_terminal_records
gc_with_ids (err e) cutoff store = (store, err e)
gc_with_ids (ok protected) cutoff store =
    let (next, deleted) = gc_terminal_records (protected ++ retiring store) cutoff store in
    (next, ok deleted)

unfoldable pub gc_with_artifact_inventory :
    ArtifactInventory → Time → MutationStore → MutationStore × Result IdempotencyError ℕ
unfolding protected_operation_ids gc_with_ids
gc_with_artifact_inventory inventory = gc_with_ids (protected_operation_ids inventory)
