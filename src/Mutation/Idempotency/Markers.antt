-- ===== src/Mutation/Idempotency/Markers.antt =====
-- The effect marker of an operation outlives interruptions and resumptions
-- (src/mutation/idempotency.rs).
use solodock.Mutation.Idempotency.Rows.{
  IdempotencyError, in_slot, EffectMarker, MutationStore, IdempotencyRecord,
}
use solodock.Mutation.Idempotency.Effects.{
  start_marker, marker_of, can_start, mark_effect_started, effect_marker,
}
use mathlib.Core.Bool.{false≢true}
use solodock.Base.{
  ◌==◌, ◌<◌, is_some, ℕ, ◌≤◌, Bool, true, ◌&&◌, Option, some, List, [], ◌∷◌, if◌then◌else◌, ◌≡◌,
  refl, inl, inr, arith, sym, ap, ◌∙◌, Bool-cases, Option-cases, String, ok, err,
}
use solodock.Base.Table.{
  count_where, count_where-one, find_where, find_where-update, find_where-append, update_where,
  find_where_one,
}
use solodock.Base.Text.{Text}
use solodock.Database.{Uuid, Time}
use solodock.Mutation.Idempotency.Calls.{Call, step, run}
use solodock.Mutation.Idempotency.Change.{
  Change, kept, inserted, updated, collection-cases, step-Change, Keeps, SameMarker,
}
use solodock.Mutation.Idempotency.Invariant.{IsIntact, run-IsIntact, step-IsIntact}
use solodock.Mutation.Idempotency.Deletion.{Deleted-found, collect-Deleted}
use solodock.Mutation.Idempotency.Gc.{collect}
use solodock.Mutation.Idempotency.Slot.{decides}
use solodock.Mutation.Idempotency.Grants.{deletion, deletions}

-- The row of a key, and its marker.
abbrev HasMarker : String → Text → Text → IdempotencyRecord → List IdempotencyRecord → Type 0
HasMarker actor route kh row rows =
    (next : IdempotencyRecord) × (find_where (in_slot actor route kh) rows ≡ some next)
    × SameMarker row next

updated-marker :
    (p : IdempotencyRecord → Bool) (f : IdempotencyRecord → IdempotencyRecord) (keeps : Keeps p f)
    (row next : IdempotencyRecord)
    → SameMarker row next
    → SameMarker row (if p next then f next else next)
updated-marker p f keeps row next m = elim (Bool-cases (p next)) [
  | inr e ↦ rw e m
  | inl e ↦
      let moved = keeps.marker next e m.marked in
      rw e (record {
        marked = moved.marked;
        container = moved.container ∙ m.container;
        started_at = moved.started_at ∙ m.started_at;
      })
]

Change-HasMarker :
    (actor : String) (route kh : Text) (row : IdempotencyRecord)
    (rows next : List IdempotencyRecord)
    → Change rows next
    → HasMarker actor route kh row rows
    → HasMarker actor route kh row next
Change-HasMarker actor route kh row rows next (kept e) h = rw e h
Change-HasMarker actor route kh row rows next (inserted new free a n e) (old, found, m) =
    (old, rw e (find_where-append (in_slot actor route kh) rows (new ∷ []) old found), m)
Change-HasMarker actor route kh row rows next (updated p f keeps e) (old, found, m) = (
  if p old then f old else old,
  rw e (
      find_where-update p (in_slot actor route kh) f rows old (λ s. keeps.slot actor route kh s)
        found),
  updated-marker p f keeps row old m,
)

seen_marker :
    (row : IdempotencyRecord) (marker : EffectMarker)
    → marker_of row ≡ some marker
    → (is_some row.effect_phase ≡ true)
      × (row.pre_container_id ≡ marker.pre_container_id)
      × (row.pre_started_at ≡ marker.pre_started_at)
unfolding marker_of
seen_marker row marker e = elim (Option-cases row.effect_phase) [
  | inl absent ↦ let e' = rw (marker_of, absent) at e in cc
  | inr (phase, there) ↦ let e' = rw (marker_of, there) at e in (rw there refl, cc, cc)
]

later_marker :
    (row : IdempotencyRecord)
    → is_some row.effect_phase ≡ true
    → (later : EffectMarker) × (marker_of row ≡ some later)
      × (later.pre_container_id ≡ row.pre_container_id)
      × (later.pre_started_at ≡ row.pre_started_at)
unfolding marker_of
later_marker row h = elim (Option-cases row.effect_phase) [
  | inl absent ↦ absurd (false≢true (ap is_some (sym absent) ∙ h))
  | inr (phase, there) ↦ (
    record {
      phase = phase;
      pre_container_id = row.pre_container_id;
      pre_started_at = row.pre_started_at;
      post_container_id = row.post_container_id;
    },
    rw there refl,
    refl,
    refl,
  )
]

start_marker-SameMarker :
    (container started_at : Option Text) (now : Time) (row : IdempotencyRecord)
    → SameMarker
        (start_marker container started_at now row)
        (start_marker container started_at now row)
unfolding start_marker
start_marker-SameMarker container started_at now row = record {
  marked = refl;
  container = refl;
  started_at = refl;
}

-- A row that is marked is not selected by a start.
marked-refuses :
    (q : IdempotencyRecord → Bool) (rows : List IdempotencyRecord) (next : IdempotencyRecord)
    → count_where q rows ≤ 1
    → find_where q rows ≡ some next
    → is_some next.effect_phase ≡ true
    → count_where (λ row. q row && can_start row) rows ≡ 0
unfolding can_start
marked-refuses q rows next u found marked = ground (
  arith,
  count_where-one (λ row. q row && can_start row) q rows next (λ s h. ground arith) u found,
)

changed-one :
    (n : ℕ) → (if n == 1 then ok tt else err IdempotencyError.record_invalid) ≡ ok (tt {0}) → 0 < n
changed-one n e = ground arith

-- The row of a key after a start that changed a row is marked.
started-HasMarker :
    (actor : String) (route kh : Text) (container started_at : Option Text) (now : Time)
    (rows : List IdempotencyRecord)
    → let q = in_slot actor route kh in
      count_where q rows ≤ 1
      → 0 < count_where (λ r. q r && can_start r) rows
      → (row : IdempotencyRecord) × HasMarker actor route kh row
          (update_where (λ r. q r && can_start r) (start_marker container started_at now) rows)
started-HasMarker actor route kh container started_at now rows u n =
    let q = in_slot actor route kh in
    let (row, found, can) =
      find_where_one (λ r. q r && can_start r) q rows (λ s h. ground arith) u n in
    let new = start_marker container started_at now row in
    let moved =
      find_where-update (λ r. q r && can_start r) q (start_marker container started_at now) rows row
        (λ s. unfold start_marker in_slot in refl) found in
    (new, (new, rw can at moved, start_marker-SameMarker container started_at now row))

module _ (keyed : Text → Text) where
  -- A collection that spares the row of the key keeps its marker.
  collect-HasMarker :
      (route kh : Text) (row : IdempotencyRecord) (cutoff : Time) (rows : List (ℕ × Uuid))
      (store : MutationStore)
      → count_where (in_slot "admin" route kh) store.records ≤ 1
      → deletion route kh keyed store (Call.collects cutoff rows) ≡ 0
      → HasMarker "admin" route kh row store.records
      → HasMarker "admin" route kh row (collect cutoff rows store).0.records
  unfolding decides
  collect-HasMarker route kh row cutoff rows store u spared (next, found, m) =
      let q = in_slot "admin" route kh in
      elim (Deleted-found q (collect cutoff rows store).0.records store.records
        (collect-Deleted cutoff rows store) u) [
          | inl same ↦ (next, same ∙ found, m)
          | inr (old, (was, (settled, gone))) ↦ let bad = rw (was, gone) at spared in absurd cc
        ]

  step-HasMarker :
      (route kh : Text) (row : IdempotencyRecord) (store : MutationStore) (now : Time) (c : Call)
      → count_where (in_slot "admin" route kh) store.records ≤ 1
      → deletion route kh keyed store c ≡ 0
      → HasMarker "admin" route kh row store.records
      → HasMarker "admin" route kh row (step keyed store (now, c)).records
  unfolding step
  step-HasMarker route kh row store now c u spared h = elim (collection-cases c) [
    | inl plain ↦ Change-HasMarker "admin" route kh row _ _ (step-Change keyed store now c plain) h
    | inr (cutoff, (rows, e)) ↦
        rw e (collect-HasMarker route kh row cutoff rows store u (rw e at spared) h)
  ]

  run-HasMarker :
      (route kh : Text) (row : IdempotencyRecord) (store : MutationStore) (cs : List (Time × Call))
      → IsIntact store.records
      → deletions keyed route kh store cs ≡ 0
      → HasMarker "admin" route kh row store.records
      → HasMarker "admin" route kh row (run keyed store cs).records
  unfolding run
  run-HasMarker route kh row store [] w spared h = h
  run-HasMarker route kh row store ((now, c) ∷ cs) w spared h =
      let first : deletion route kh keyed store c ≡ 0 = omega arith in
      let rest : deletions keyed route kh (step keyed store (now, c)) cs ≡ 0 = omega arith in
      run-HasMarker route kh row (step keyed store (now, c)) cs (step-IsIntact keyed store now c w)
        rest (step-HasMarker route kh row store now c (w.one_row "admin" route kh) first h)

  -- Once an effect is started, its marker is there after every sequence of calls in which no collection
  -- deletes the row of the key, with what the caller saw before the effect.
  pub run-effect_marker :
      (route key : Text) (store : MutationStore) (cs : List (Time × Call)) (marker : EffectMarker)
      → IsIntact store.records
      → deletions keyed route (keyed key) store cs ≡ 0
      → effect_marker keyed route key store ≡ some marker
      → (later : EffectMarker) × (effect_marker keyed route key (run keyed store cs) ≡ some later)
        × (later.pre_container_id ≡ marker.pre_container_id)
        × (later.pre_started_at ≡ marker.pre_started_at)
  unfolding effect_marker
  run-effect_marker route key store cs marker w spared e =
      elim (Option-cases (find_where (in_slot "admin" route (keyed key)) store.records)) [
        | inl absent ↦ let e' = rw (effect_marker, absent) at e in absurd cc
        | inr (row, found) ↦
            let (phase, pre, at_start) = seen_marker row marker (rw (effect_marker, found) at e) in
            let (next, found', m) =
              run-HasMarker route (keyed key) row store cs w spared
                (row, found, record { marked = phase; container = refl; started_at = refl }) in
            let (later, there, pre', at_start') = later_marker next m.marked in
            (
              later,
              rw (effect_marker, found') there,
              pre' ∙ (m.container ∙ pre),
              at_start' ∙ (m.started_at ∙ at_start),
            )
      ]

  -- An effect that was started is not started again under its key, by whatever calls of the service in between,
  -- deployments and collections included, of which no collection deletes the row of the key.
  pub mark_effect_started-refused :
      (route key : Text) (container started_at container' started_at' : Option Text)
      (now later : Time) (store : MutationStore) (cs : List (Time × Call))
      → IsIntact store.records
      → (mark_effect_started keyed route key container started_at now store).1 ≡ ok tt
      → deletions keyed route
          (keyed key)
          (mark_effect_started keyed route key container started_at now store).0
          cs
        ≡ 0
      → (mark_effect_started keyed route key container' started_at' later
          (run keyed (mark_effect_started keyed route key container started_at now store).0 cs)).1
        ≡ err IdempotencyError.record_invalid
  unfolding mark_effect_started step
  mark_effect_started-refused route key container started_at container' started_at' now later store
        cs w e spared =
      let q = in_slot "admin" route (keyed key) in
      let one = w.one_row "admin" route (keyed key) in
      let started = (mark_effect_started keyed route key container started_at now store).0 in
      let (row, there) =
        started-HasMarker "admin" route (keyed key) container started_at now store.records one
          (changed-one _ e) in
      let w1 : IsIntact started.records =
        step-IsIntact keyed store now (Call.starts route key container started_at) w in
      let (next, found, m) = run-HasMarker route (keyed key) row started cs w1 spared there in
      let w' = run-IsIntact keyed started cs w1 in
      rw
        (marked-refuses q (run keyed started cs).records next (w'.one_row "admin" route (keyed key))
          found m.marked)
        refl
