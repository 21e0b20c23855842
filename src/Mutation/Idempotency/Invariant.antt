-- ===== src/Mutation/Idempotency/Invariant.antt =====
-- What every sequence of calls keeps of the table of operations (src/mutation/idempotency.rs).
use solodock.Mutation.Idempotency.Slot.{is_answered}
use solodock.Mutation.Idempotency.Rows.{
  next_rowid, has_rowid, in_slot, MutationStore, IdempotencyRecord,
}
use solodock.Base.{
  ℕ, ◌≤◌, true, List, [], ◌∷◌, ◌++◌, ◌≡◌, refl, inl, inr, arith, Bool-cases, All, All-append,
  String, text_eq_iff,
}
use solodock.Base.Table.{
  count_where, count_where-append, count_where-update_eq, All-update, find_where_none→count,
}
use solodock.Base.Text.{Text, same_iff}
use solodock.Database.{Time}
use solodock.Mutation.Idempotency.Calls.{Call, step, run}
use solodock.Mutation.Idempotency.Change.{
  Change, kept, inserted, updated, step-Change, collection-cases,
}
use solodock.Mutation.Idempotency.Deletion.{collect-Deleted, Deleted, Deleted-count_le, Deleted-All}

-- One row for each key, and no settled row without its answer.
pub record IsIntact (rows : List IdempotencyRecord) : Type 0 where
  pub one_row : (actor : String) (route kh : Text) → count_where (in_slot actor route kh) rows ≤ 1
  pub one_rowid : (n : ℕ) → count_where (has_rowid n) rows ≤ 1
  pub answered : All (λ row. is_answered row ≡ true) rows

in_slot-keys :
    (actor : String) (route kh : Text) (row : IdempotencyRecord)
    → in_slot actor route kh row ≡ true
    → (row.actor ≡ actor) × (row.route ≡ route) × (row.key_hmac ≡ kh)
unfolding in_slot
in_slot-keys actor route kh row h = (
  (text_eq_iff row.actor actor).0 (ground arith),
  (same_iff row.route route).0 (ground arith),
  (same_iff row.key_hmac kh).0 (ground arith),
)

count_inserted :
    (actor : String) (route kh : Text) (row : IdempotencyRecord) (rows : List IdempotencyRecord)
    → count_where (in_slot row.actor row.route row.key_hmac) rows ≡ 0
    → count_where (in_slot actor route kh) rows ≤ 1
    → count_where (in_slot actor route kh) (rows ++ row ∷ []) ≤ 1
count_inserted actor route kh row rows free le = elim (Bool-cases (in_slot actor route kh row)) [
  | inl h ↦
      let (a, r, k) = in_slot-keys actor route kh row h in
      let free' = rw (a, r, k) at free in
      ground (arith, count_where-append (in_slot actor route kh) rows (row ∷ []), free')
  | inr h ↦ ground (arith, count_where-append (in_slot actor route kh) rows (row ∷ []))
]

next_rowid_free :
    (n : ℕ) (rows : List IdempotencyRecord)
    → next_rowid rows ≤ n
    → count_where (has_rowid n) rows ≡ 0
unfolding next_rowid
next_rowid_free n [] h = refl
next_rowid_free n (r ∷ rs) h = ground (arith, next_rowid_free n rs)

count_rowid :
    (k : ℕ) (row : IdempotencyRecord) (rows : List IdempotencyRecord)
    → row.rowid ≡ next_rowid rows
    → count_where (has_rowid k) rows ≤ 1
    → count_where (has_rowid k) (rows ++ row ∷ []) ≤ 1
count_rowid k row rows n le =
    ground (arith, count_where-append (has_rowid k) rows (row ∷ []), next_rowid_free k rows)

pub Change-IsIntact :
    (rows next : List IdempotencyRecord) → Change rows next → IsIntact rows → IsIntact next
Change-IsIntact rows next (kept e) w = rw e w
Change-IsIntact rows next (inserted row free h n e) w = rw e (record {
  one_row = λ actor route kh.
      count_inserted actor route kh row rows
        (find_where_none→count (in_slot row.actor row.route row.key_hmac) rows free)
        (w.one_row actor route kh);
  one_rowid = λ k. count_rowid k row rows n (w.one_rowid k);
  answered = All-append (λ row. is_answered row ≡ true) rows (row ∷ []) w.answered (h, tt);
})
Change-IsIntact rows next (updated p f keeps e) w = rw e (record {
  one_row = λ actor route kh. omega (
    arith,
    count_where-update_eq p (in_slot actor route kh) f rows (λ row. keeps.slot actor route kh row),
    w.one_row actor route kh,
  );
  one_rowid = λ k. omega (
    arith,
    count_where-update_eq p (has_rowid k) f rows (λ row. rw (keeps.rowid row) refl),
    w.one_rowid k,
  );
  answered = All-update (λ row. is_answered row ≡ true) p f rows keeps.answered w.answered;
})

pub Deleted-IsIntact :
    (rows next : List IdempotencyRecord) → Deleted next rows → IsIntact rows → IsIntact next
Deleted-IsIntact rows next d w = record {
  one_row = λ actor route kh.
      omega
        (arith, Deleted-count_le (in_slot actor route kh) next rows d, w.one_row actor route kh);
  one_rowid = λ k. omega (arith, Deleted-count_le (has_rowid k) next rows d, w.one_rowid k);
  answered = Deleted-All (λ row. is_answered row ≡ true) next rows d w.answered;
}

module _ (keyed : Text → Text) where
  pub step-IsIntact :
      (store : MutationStore) (now : Time) (c : Call)
      → IsIntact store.records
      → IsIntact (step keyed store (now, c)).records
  unfolding step
  step-IsIntact store now c w = elim (collection-cases c) [
    | inl plain ↦ Change-IsIntact _ _ (step-Change keyed store now c plain) w
    | inr (cutoff, (rows, e)) ↦ rw e (Deleted-IsIntact _ _ (collect-Deleted cutoff rows store) w)
  ]

  -- Every sequence of the service's calls on its table, deployments and collections
  -- included, keeps one row for each key of each
  -- route, and never settles a row without its answer, so that no replay panics.
  pub run-IsIntact :
      (store : MutationStore) (cs : List (Time × Call))
      → IsIntact store.records
      → IsIntact (run keyed store cs).records
  unfolding run
  run-IsIntact store [] w = w
  run-IsIntact store ((now, c) ∷ cs) w =
      run-IsIntact (step keyed store (now, c)) cs (step-IsIntact store now c w)
