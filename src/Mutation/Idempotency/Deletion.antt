-- ===== src/Mutation/Idempotency/Deletion.antt =====
-- What a collection deletes of the table of operations (src/mutation/idempotency.rs).
use solodock.Base.{
  ℕ, ◌≤◌, Bool, true, none, some, List, [], ◌∷◌, ◌≡◌, refl, ◌⊎◌, inl, inr, arith, sym, ◌∙◌,
  Bool-cases, Option-cases, All,
}
use solodock.Base.Table.{
  count_where, delete_where, find_where, find_where-delete_found, find_where-delete_hit,
  count_where-delete_le, count_where_none→find, find_where_none→count, All-delete,
}
use solodock.Database.{Uuid, Time}
use solodock.Mutation.Idempotency.Rows.{IdempotencyRecord, MutationStore, is_settled}
use solodock.Mutation.Idempotency.Gc.{collect, is_collected, is_expired}

-- Settled rows are deleted, by one test after the other.
pub data Deleted (next : List IdempotencyRecord) : List IdempotencyRecord → Type 0 where
  done : {rows : List IdempotencyRecord} → next ≡ rows → Deleted next rows
  further :
      (p : IdempotencyRecord → Bool) {rows : List IdempotencyRecord}
      → ((row : IdempotencyRecord) → p row ≡ true → is_settled row.status ≡ true)
      → Deleted next (delete_where p rows)
      → Deleted next rows

pub collect-Deleted :
    (cutoff : Time) (cs : List (ℕ × Uuid)) (store : MutationStore)
    → Deleted (collect cutoff cs store).0.records store.records
unfolding collect is_collected
collect-Deleted cutoff [] store = done refl
collect-Deleted cutoff (c ∷ cs) store =
    further (is_collected cutoff store c) (λ row h. unfold is_expired in ground arith)
      (collect-Deleted cutoff cs _)

pub Deleted-count_le :
    (q : IdempotencyRecord → Bool) (next rows : List IdempotencyRecord)
    → Deleted next rows
    → count_where q next ≤ count_where q rows
Deleted-count_le q next rows (done e) = rw e (omega arith)
Deleted-count_le q next rows (further p settled d) =
    omega (arith, Deleted-count_le q next (delete_where p rows) d, count_where-delete_le p q rows)

pub Deleted-All {κ} :
    (P : IdempotencyRecord → Type κ) (next rows : List IdempotencyRecord)
    → Deleted next rows
    → All P rows
    → All P next
Deleted-All P next rows (done e) h = rw e h
Deleted-All P next rows (further p settled d) h =
    Deleted-All P next (delete_where p rows) d (All-delete P p rows h)

Deleted-none :
    (q : IdempotencyRecord → Bool) (next rows : List IdempotencyRecord)
    → Deleted next rows
    → find_where q rows ≡ none
    → find_where q next ≡ none
Deleted-none q next rows d e =
    let zero_before = find_where_none→count q rows e in
    count_where_none→find q next (omega (arith, Deleted-count_le q next rows d))

-- The one row that a test selects is still there, or was settled and is deleted.
pub Deleted-found :
    (q : IdempotencyRecord → Bool) (next rows : List IdempotencyRecord)
    → Deleted next rows
    → count_where q rows ≤ 1
    → (find_where q next ≡ find_where q rows)
      ⊎ ((row : IdempotencyRecord) × ((find_where q rows ≡ some row)
            × ((is_settled row.status ≡ true) × (find_where q next ≡ none))))
Deleted-found q next rows (done e) u = inl (rw e refl)
Deleted-found q next rows (further p settled d) u = elim (Option-cases (find_where q rows)) [
  | inl absent ↦ inl (Deleted-none q next rows (further p settled d) absent ∙ sym absent)
  | inr (row, e) ↦ elim (Bool-cases (p row)) [
    | inl hit ↦ inr (
      row,
      (
        e,
        (
          settled row hit,
          Deleted-none q next (delete_where p rows) d (find_where-delete_hit p q rows row u e hit),
        ),
      ),
    )
    | inr miss ↦
        let kept = find_where-delete_found p q rows row e miss in
        elim (Deleted-found q next (delete_where p rows) d
          (omega (arith, u, count_where-delete_le p q rows))) [
            | inl same ↦ inl (same ∙ (kept ∙ sym e))
            | inr (other, (found, (s, gone))) ↦
                let same_row : other ≡ row = cc in inr (row, (e, (rw same_row at s, gone)))
          ]
  ]
]
