-- ===== src/Mutation/Idempotency/Collection.antt =====
-- What the garbage collection keeps (src/mutation/idempotency.rs).
use mathlib.Core.Bool.{false≢true}
use solodock.Base.{
  ℕ, ◌+◌, ◌≤◌, Bool, true, false, not, ◌==◌, ==_iff, some, List, [], ◌∷◌, ◌++◌, ◌≡◌, inl, inr,
  arith, sym, ◌∙◌, Bool-cases, All, All-take, All-map, All-implies, length, length-take,
  Result-cases, ok,
}
use solodock.Base.Table.{
  count_where, delete_where, select_where, find_where, find_where-delete_found, length-delete,
  All-select, count_where-delete_le, count_where_mono,
}
use solodock.Database.{Uuid, Time}
use solodock.Mutation.Idempotency.Rows.{IdempotencyRecord, MutationStore, has_rowid}
use solodock.Mutation.Idempotency.Invariant.{IsIntact}
use solodock.Mutation.Idempotency.Gc.{
  gc_with_ids, retiring, has_uuid, is_expired, by_age, candidates, is_needed, is_collected, collect,
  gc_terminal_records, gc_with_artifact_inventory, protected_operation_ids, ArtifactInventory,
}

candidates-unprotected :
    (protected : List Uuid) (cutoff : Time) (store : MutationStore)
    → All (λ (c : ℕ × Uuid). has_uuid protected c.1 ≡ false) (candidates protected cutoff store)
unfolding candidates
candidates-unprotected protected cutoff store =
    All-take (λ (c : ℕ × Uuid). has_uuid protected c.1 ≡ false) 100 _
      (All-map (λ (c : ℕ × Uuid). has_uuid protected c.1 ≡ false)
        (λ row. (row.rowid, row.operation_id)) _
        (All-implies _ (λ row. has_uuid protected row.operation_id ≡ false) _
          (λ row h. ground arith)
          (All-select (λ row. not (has_uuid protected row.operation_id))
            (by_age (select_where (is_expired cutoff) store.records)))))

-- What spares a row from a candidate.
pub data Spared (protected : List Uuid) (cutoff : Time) (store : MutationStore)
    (row : IdempotencyRecord) : Type 0 where
  recent : is_expired cutoff row ≡ false → Spared protected cutoff store row
  owned : has_uuid protected row.operation_id ≡ true → Spared protected cutoff store row
  needed : is_needed store row.operation_id ≡ true → Spared protected cutoff store row

spared :
    (protected : List Uuid) (cutoff : Time) (store : MutationStore) (row : IdempotencyRecord)
    (c : ℕ × Uuid)
    → Spared protected cutoff store row
    → has_uuid protected c.1 ≡ false
    → is_collected cutoff store c row ≡ false
unfolding is_collected
spared protected cutoff store row (n, id) (recent h) k = ground arith
spared protected cutoff store row (n, id) (owned h) k = elim (Bool-cases (row.operation_id == id)) [
  | inl e ↦ absurd (false≢true (sym k ∙ (rw ((==_iff row.operation_id id).0 e) at h)))
  | inr e ↦ ground arith
]
spared protected cutoff store row (n, id) (needed h) k = ground arith

collect-found :
    (q : IdempotencyRecord → Bool) (cutoff : Time) (row : IdempotencyRecord) (cs : List (ℕ × Uuid))
    (store : MutationStore)
    → All (λ c. is_collected cutoff store c row ≡ false) cs
    → find_where q store.records ≡ some row
    → find_where q (collect cutoff cs store).0.records ≡ some row
unfolding collect is_collected is_needed
collect-found q cutoff row [] store h e = e
collect-found q cutoff row (c ∷ cs) store (h, hs) e =
    collect-found q cutoff row cs _ hs (find_where-delete_found _ q store.records row e h)

-- The deletions follow a selection that was made on an earlier state of the table. They spare every
-- row that is pending, interrupted or recent, whose operation the given ids protect, or that a clean-up or an
-- unregistration still needs.
pub collect-keeps :
    (protected : List Uuid) (cutoff : Time) (before store : MutationStore)
    (q : IdempotencyRecord → Bool) (row : IdempotencyRecord)
    → find_where q store.records ≡ some row
    → Spared protected cutoff store row
    → find_where q (collect cutoff (candidates protected cutoff before) store).0.records ≡ some row
collect-keeps protected cutoff before store q row e s =
    collect-found q cutoff row (candidates protected cutoff before) store
      (All-implies _ _ _ (λ c k. spared protected cutoff store row c s k)
        (candidates-unprotected protected cutoff before))
      e

collect_counted :
    (cutoff : Time) (cs : List (ℕ × Uuid)) (store : MutationStore)
    → length (collect cutoff cs store).0.records + (collect cutoff cs store).1
      ≡ length store.records
unfolding collect
collect_counted cutoff [] store = omega arith
collect_counted cutoff (c ∷ cs) store =
    let next = record store {
      records = delete_where (is_collected cutoff store c) store.records;
    } in
    omega (
      arith,
      length-delete (is_collected cutoff store c) store.records,
      collect_counted cutoff cs next,
    )

collected_one :
    (cutoff : Time) (store : MutationStore) (c : ℕ × Uuid)
    → ((n : ℕ) → count_where (has_rowid n) store.records ≤ 1)
    → count_where (is_collected cutoff store c) store.records ≤ 1
unfolding is_collected
collected_one cutoff store (n, id) u = omega (
  arith,
  u n,
  count_where_mono (is_collected cutoff store (n, id)) (has_rowid n) store.records
      (λ r h. ground arith),
)

collect_le :
    (cutoff : Time) (cs : List (ℕ × Uuid)) (store : MutationStore)
    → ((n : ℕ) → count_where (has_rowid n) store.records ≤ 1)
    → (collect cutoff cs store).1 ≤ length cs
unfolding collect
collect_le cutoff [] store u = omega arith
collect_le cutoff (c ∷ cs) store u =
    let next = record store {
      records = delete_where (is_collected cutoff store c) store.records;
    } in
    omega (
      arith,
      collected_one cutoff store c u,
      collect_le cutoff cs next (λ n. omega (
        arith,
        u n,
        count_where-delete_le (is_collected cutoff store c) (has_rowid n) store.records,
      )),
    )

length-candidates :
    (protected : List Uuid) (cutoff : Time) (store : MutationStore)
    → length (candidates protected cutoff store) ≤ 100
unfolding candidates
length-candidates protected cutoff store = length-take 100 _

has_uuid-append :
    (xs ys : List Uuid) (id : Uuid) → has_uuid xs id ≡ true → has_uuid (xs ++ ys) id ≡ true
has_uuid-append [] ys id h = cc
has_uuid-append (x ∷ xs) ys id h = ground (arith, has_uuid-append xs ys id)

-- A collection deletes 100 rows at most, and counts the rows that it deletes.
pub gc_terminal_records_bounds :
    (protected : List Uuid) (cutoff : Time) (store : MutationStore)
    → IsIntact store.records
    → let (next, deleted) = gc_terminal_records protected cutoff store in
      (deleted ≤ 100) × (length next.records + deleted ≡ length store.records)
unfolding gc_terminal_records candidates
gc_terminal_records_bounds protected cutoff store w = (
  omega (
    arith,
    collect_le cutoff (candidates protected cutoff store) store w.one_rowid,
    length-candidates protected cutoff store,
  ),
  collect_counted cutoff (candidates protected cutoff store) store,
)

-- A clean-up of the table keeps every operation that the files of a store name, and does nothing when
-- one of the stores cannot be read.
pub gc_with_artifact_inventory-keeps :
    (inventory : ArtifactInventory) (cutoff : Time) (store : MutationStore)
    (q : IdempotencyRecord → Bool) (row : IdempotencyRecord)
    → find_where q store.records ≡ some row
    → ((ids : List Uuid)
        → protected_operation_ids inventory ≡ ok ids
        → has_uuid ids row.operation_id ≡ true)
    → find_where q (gc_with_artifact_inventory inventory cutoff store).0.records ≡ some row
unfolding gc_with_artifact_inventory gc_terminal_records gc_with_ids
gc_with_artifact_inventory-keeps inventory cutoff store q row e named =
    elim (Result-cases (protected_operation_ids inventory)) [
      | inr (error, failed) ↦ rw (failed, gc_with_ids) e
      | inl (ids, found) ↦
          rw (found, gc_with_ids)
            (collect-keeps (ids ++ retiring store) cutoff store store q row e (
              Spared.owned
                (has_uuid-append ids (retiring store) row.operation_id (named ids found))))
    ]
