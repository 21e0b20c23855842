-- ===== src/Deploy/Ledger/Effects.antt =====
-- The effect journal over a whole run: each effect starts once (src/deploy/ledger.rs).
use solodock.Deploy.Ledger.Transactions.{update_one}
use solodock.Deploy.Ledger.Uniqueness.{IsUnique, violates-ids}
use solodock.Deploy.Ledger.Journal.{
  start_rollback, mark_rollback_started, can_start_rollback, start_effect, mark_effect_started,
  can_start_effect,
}
use solodock.Base.Table.{
  update_where_one, count_where_mono, update_where, count_where-update_le, count_where-update_eq,
  count_where-append, count_where,
}
use solodock.Base.{
  ◌==◌, err, ok, inr, String, ==_iff, Option, inl, Bool-cases, ltb, false, [], ◌∷◌, ◌&&◌, true,
  arith, List, Bool, ℕ, ◌≤◌, ◌<◌, ◌≡◌, refl,
}
use solodock.Database.{LedgerError, Uuid, Time, Database, Deployment}
use solodock.Deploy.Ledger.Rows.{violates_unique, has_id}
use solodock.Deploy.Ledger.Calls.{Call, step, run}
use solodock.Deploy.Ledger.Change.{
  Change, kept, inserted, updated, step-Change, IsSound, effect_rank,
}

-- There is a row with this id, and the effect of every such row has reached `rank`.
pub record Reached (column : Deployment → ℕ) (id : Uuid) (rank : ℕ) (rows : List Deployment)
    : Type 0 where
  pub there : 0 < count_where (has_id id) rows
  pub reached : count_where (λ r. has_id id r && ltb (column r) rank) rows ≡ 0

abbrev pub effect : Deployment → ℕ
effect r = effect_rank r.effect_phase

abbrev pub rollback_effect : Deployment → ℕ
rollback_effect r = effect_rank r.rollback_effect_phase

-- `f` does not lower the column on the rows that `p` selects.
abbrev Grows : (Deployment → ℕ) → (Deployment → Bool) → (Deployment → Deployment) → Type 0
Grows column p f = (r : Deployment) → p r ≡ true → column r ≤ column (f r)

pub free-absent :
    (id : Uuid) (row : Deployment) (rows : List Deployment)
    → count_where (violates_unique row.id row.app_id) rows ≡ 0
    → 0 < count_where (has_id id) rows
    → has_id id row ≡ false
free-absent id row rows free there = elim (Bool-cases (has_id id row)) [
  | inl e ↦
      absurd (omega (arith, violates-ids id row.app_id rows (rw ((==_iff row.id id).0 e) at free)))
  | inr e ↦ e
]

Change-Reached :
    (column : Deployment → ℕ)
    → ((p : Deployment → Bool) (f : Deployment → Deployment) → IsSound p f → Grows column p f)
    → (id : Uuid) (rank : ℕ) (rows next : List Deployment) → Change rows next
    → Reached column id rank rows
    → Reached column id rank next
Change-Reached column grows id rank rows next (kept e) v = rw e v
Change-Reached column grows id rank rows next (inserted row free q e) v =
    let other = free-absent id row rows free v.there in
    rw e (record {
      there = omega (arith, count_where-append (has_id id) rows (row ∷ []), v.there);
      reached = ground (
        arith,
        other,
        v.reached,
        count_where-append (λ r. has_id id r && ltb (column r) rank) rows (row ∷ []),
      );
    })
Change-Reached column grows id rank rows next (updated p f sound e) v = rw e (record {
  there =
      omega
        (arith, count_where-update_eq p (has_id id) f rows (λ r. rw (sound.keeps_id r)), v.there);
  reached = omega (
    arith,
    v.reached,
    count_where-update_le p (λ r. has_id id r && ltb (column r) rank) f rows
        (λ r h. lower r h (grows p f sound r h) (sound.keeps_id r)),
  );
})
  where
    lower :
        (r : Deployment)
        → p r ≡ true
        → column r ≤ column (f r)
        → (f r).id ≡ r.id
        → (has_id id (f r) && ltb (column (f r)) rank) ≡ true
        → (has_id id r && ltb (column r) rank) ≡ true
    lower r h g k l = ground arith

run-Reached :
    (column : Deployment → ℕ)
    → ((p : Deployment → Bool) (f : Deployment → Deployment) → IsSound p f → Grows column p f)
    → (id : Uuid) (rank : ℕ) (cs : List (Time × Call)) (db : Database)
    → Reached column id rank db.deployments
    → Reached column id rank (run db cs).deployments
unfolding run
run-Reached column grows id rank [] db v = v
run-Reached column grows id rank ((now, c) ∷ cs) db v =
    run-Reached column grows id rank cs (step db (now, c))
      (Change-Reached column grows id rank _ _ (step-Change db now c) v)

-- An update that raises the column of the one row with this id has reached the rank.
update-Reached :
    (column : Deployment → ℕ) (id : Uuid) (rank : ℕ) (p : Deployment → Bool)
    (f : Deployment → Deployment) (rows : List Deployment)
    → ((r : Deployment) → (f r).id ≡ r.id)
    → ((r : Deployment) → p r ≡ true → has_id id r ≡ true)
    → ((r : Deployment) → rank ≤ column (f r))
    → count_where (has_id id) rows ≤ 1
    → 0 < count_where p rows
    → Reached column id rank (update_where p f rows)
update-Reached column id rank p f rows keeps only raises one hit = record {
  there = omega (
    arith,
    hit,
    count_where_mono p (has_id id) rows only,
    count_where-update_eq p (has_id id) f rows (λ r. rw (keeps r)),
  );
  reached =
      update_where_one p (has_id id) (λ r. has_id id r && ltb (column r) rank) f rows only
        (λ r h. ground arith) (λ r h. ground (arith, raises r)) one hit;
}

-- Where the rank is reached, no row can be selected that has this id and a lower rank.
Reached-blocks :
    (column : Deployment → ℕ) (id : Uuid) (rank : ℕ) (p : Deployment → Bool)
    (rows : List Deployment)
    → ((r : Deployment) → p r ≡ true → (has_id id r && ltb (column r) rank) ≡ true)
    → Reached column id rank rows
    → (count_where p rows == 1) ≡ false
Reached-blocks column id rank p rows low v =
    ground (arith, v.reached, count_where_mono p (λ r. has_id id r && ltb (column r) rank) rows low)

hits :
    (p : Deployment → Bool) (f : Deployment → Deployment) (db next : Database)
    → update_one p f db ≡ ok next
    → (count_where p db.deployments ≡ 1) × (next.deployments ≡ update_where p f db.deployments)
hits p f db next h = ground arith

can_start_effect-low :
    (id : Uuid) (r : Deployment)
    → can_start_effect id r ≡ true
    → (has_id id r && ltb (effect r) 1) ≡ true
unfolding can_start_effect
can_start_effect-low id r h = ground arith

can_start_rollback-low :
    (id : Uuid) (r : Deployment)
    → can_start_rollback id r ≡ true
    → (has_id id r && ltb (rollback_effect r) 1) ≡ true
unfolding can_start_rollback
can_start_rollback-low id r h = ground arith

and_left : (a b : Bool) → (a && b) ≡ true → a ≡ true
and_left a b h = ground arith

-- Where ids are unique, once `mark_effect_started` has succeeded for a deployment, it fails with
-- `StateChanged` after any calls of the ledger.
pub mark_effect_started_once :
    (id : Uuid) (container started_at : Option String) (now : Time) (db next : Database)
    (cs : List (Time × Call)) (container' started_at' : Option String) (now' : Time)
    → IsUnique db.deployments
    → mark_effect_started id container started_at now db ≡ ok next
    → mark_effect_started id container' started_at' now' (run next cs)
      ≡ err LedgerError.state_changed
unfolding mark_effect_started start_effect
mark_effect_started_once id c s now db next cs c' s' now' u h =
    let (one, e) = hits (can_start_effect id) (start_effect c s now) db next h in
    let start : Reached effect id 1 next.deployments = rw e (
      update-Reached effect id 1 (can_start_effect id) (start_effect c s now) db.deployments
        (λ r. refl) (λ r k. and_left _ _ (can_start_effect-low id r k)) (λ r. omega arith)
        (u.one_row id) (omega arith)) in
    rw (
      Reached-blocks effect id 1 (can_start_effect id) (run next cs).deployments
        (can_start_effect-low id)
        (run-Reached effect (λ p f sound. sound.effect_grows) id 1 cs next start))

-- Where ids are unique, once `mark_rollback_started` has succeeded for a deployment, it fails with
-- `StateChanged` after any calls of the ledger.
pub mark_rollback_started_once :
    (id : Uuid) (container : String) (now : Time) (db next : Database) (cs : List (Time × Call))
    (container' : String) (now' : Time)
    → IsUnique db.deployments
    → mark_rollback_started id container now db ≡ ok next
    → mark_rollback_started id container' now' (run next cs) ≡ err LedgerError.state_changed
unfolding mark_rollback_started start_rollback
mark_rollback_started_once id c now db next cs c' now' u h =
    let (one, e) = hits (can_start_rollback id) (start_rollback c now) db next h in
    let start : Reached rollback_effect id 1 next.deployments = rw e (
      update-Reached rollback_effect id 1 (can_start_rollback id) (start_rollback c now)
        db.deployments (λ r. refl) (λ r k. and_left _ _ (can_start_rollback-low id r k))
        (λ r. omega arith) (u.one_row id) (omega arith)) in
    rw (
      Reached-blocks rollback_effect id 1 (can_start_rollback id) (run next cs).deployments
        (can_start_rollback-low id)
        (run-Reached rollback_effect (λ p f sound. sound.rollback_grows) id 1 cs next start))
