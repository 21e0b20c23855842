-- ===== src/Deploy/Ledger/Branches.antt =====
-- Every branch of `create`, `transition` and `interrupt_nonterminal` (src/deploy/ledger.rs).
use solodock.Deploy.Ledger.Moved.{Moved, suppress_target-Suppression, open-Suppression}
use solodock.Database.Status.{is_terminal, is_open}
use solodock.Deploy.Ledger.Uniqueness.{IsUnique, violates-open, violates-ids, is_open_of}
use solodock.Base.Table.{
  count_where-update_none, count_where_mono, find_where_one, find_where-update, update_where,
  find_where-append_none, find_where, count_where,
}
use solodock.Deploy.Ledger.Transactions.{
  active_count, interrupt_nonterminal, record_transition, suppress_target, terminal_audit, conclude,
  transition, add_queued, get, create,
}
use solodock.Base.{
  ◌&&◌, ◌≤◌, if◌then◌else◌, String, true, inr, ◌∙◌, ==_iff, inl, Bool-cases, [], ◌++◌, some, arith,
  ◌∷◌, ok, ◌⊎◌, ◌<◌, err, false, Option, ◌==◌, List, ℕ, ◌≡◌, refl,
}
use solodock.Database.{
  DeploymentPhase, DeploymentStatus, LedgerError, DeploymentTrigger, Uuid, Time, Database,
  Deployment,
}
use native.Mathlib.Nat.{le_trans}
use solodock.Deploy.Ledger.Rows.{
  row_is_open, interrupt, advance, is_open_row, new_deployment, violates_unique, has_id,
}

violates-cases :
    (id app : Uuid) (rows : List Deployment)
    → (count_where (violates_unique id app) rows == 0) ≡ false
    → (0 < count_where (has_id id) rows) ⊎ (0 < count_where (is_open_of app) rows)
unfolding violates_unique
violates-cases id app [] h = cc
violates-cases id app (r ∷ rs) h = ground (arith, violates-cases id app rs)

-- What `create` returns: `Busy` where the id is taken or the application has an open deployment,
-- and otherwise the queued row, with which it and its first transition are added, and which `get`
-- then finds; never `Corrupt`.
pub create_outcome :
    (id app : Uuid) (trigger : DeploymentTrigger) (revision : Uuid) (from target of : Option Uuid)
    (request : Uuid) (now : Time) (db : Database)
    → let row = new_deployment id app trigger revision from target of request now in
      let made = create id app trigger revision from target of request now db in
      ((made ≡ err LedgerError.busy)
        × ((0 < count_where (has_id id) db.deployments)
            ⊎ (0 < count_where (is_open_of app) db.deployments)))
      ⊎ ((made ≡ ok (add_queued row db, row))
          × (get id (add_queued row db) ≡ some row)
          × (count_where (has_id id) db.deployments ≡ 0)
          × (count_where (is_open_of app) db.deployments ≡ 0))
unfolding create get
create_outcome id app t r f g o q now db =
    let row = new_deployment id app t r f g o q now in
    elim (Bool-cases (count_where (violates_unique id app) db.deployments == 0)) [
      | inl e ↦
          let free : count_where (violates_unique id app) db.deployments ≡ 0 =
            (==_iff (count_where (violates_unique id app) db.deployments) 0).0 e in
          let found : find_where (has_id id) (db.deployments ++ row ∷ []) ≡ some row =
            find_where-append_none (has_id id) db.deployments (row ∷ [])
              (violates-ids id app db.deployments free)
            ∙ own id row in
          inr (
            rw (e, found) refl,
            found,
            violates-ids id app db.deployments free,
            violates-open id app db.deployments free,
          )
      | inr e ↦ inl (rw e refl, violates-cases id app db.deployments e)
    ]
  where
    own : (id : Uuid) (row : Deployment) → find_where (has_id row.id) (row ∷ []) ≡ some row
    own id row = ground arith

-- `WHERE id=? AND status IN (…)` selects rows with the id.
pub is_open_row-has_id : (id : Uuid) (r : Deployment) → is_open_row id r ≡ true → has_id id r ≡ true
unfolding is_open_row
is_open_row-has_id id r h = ground arith

is_open_row-is_open :
    (id : Uuid) (r : Deployment) → is_open_row id r ≡ true → is_open r.status ≡ true
unfolding is_open_row
is_open_row-is_open id r h = ground arith

none_of : (n : ℕ) → (n == 1) ≡ false → n ≤ 1 → n ≡ 0
none_of n h k = ground arith

advanced :
    (id : Uuid) (phase : DeploymentPhase) (status : DeploymentStatus) (code : Option String)
    (now : Time) (row : Deployment) (rows : List Deployment)
    → find_where (has_id id) rows ≡ some row
    → is_open_row id row ≡ true
    → find_where (has_id id) (update_where (is_open_row id) (advance phase status code now) rows)
      ≡ some (advance phase status code now row)
unfolding is_open_row advance
advanced id phase status code now row rows found opened = rw opened at (
    find_where-update (is_open_row id) (has_id id) (advance phase status code now) rows row
      (λ s. refl) found)

-- What is committed once the update has changed one row.
committed :
    (id : Uuid) (phase : DeploymentPhase) (status : DeploymentStatus) (outcome : String)
    (code : Option String) (now : Time) (row : Deployment) (db : Database)
    → get id db ≡ some row
    → is_open_row id row ≡ true
    → let next = record_transition id phase status outcome code now db in
      (after : Database) × ((if is_terminal status
          then conclude id status code now next
          else ok next)
        ≡ ok after)
      × Moved id phase status outcome code now row db after
unfolding get record_transition conclude advance terminal_audit is_open_row
committed id phase status outcome code now row db found opened =
    let there = advanced id phase status code now row db.deployments found opened in
    let moved = advance phase status code now row in
    let next = record_transition id phase status outcome code now db in
    elim (Bool-cases (is_terminal status)) [
      | inl t ↦ (
        record next {
          audit_events = next.audit_events ++ terminal_audit moved status code now ∷ [];
          poll_states = suppress_target moved status now next.poll_states;
        },
        rw (t, there) refl,
        record {
          found = there;
          deployments = refl;
          transitions = refl;
          audit_events = rw t refl;
          poll_states = suppress_target-Suppression row status now db.poll_states;
          replays = refl;
        },
      )
      | inr o ↦ (
        next,
        rw o refl,
        record {
          found = there;
          deployments = refl;
          transitions = refl;
          audit_events = rw o refl;
          poll_states = open-Suppression row status now db.poll_states o;
          replays = refl;
        },
      )
    ]

-- Where ids are unique, `transition` answers `StateChanged` when no open deployment has the id. Otherwise it
-- finds the open row and commits: the row with its new phase, status, error code and times, one
-- transition with the next number, and, only when the status is terminal, one audit event that tells the row's
-- request, application, trigger and result. The target of the row is suppressed exactly when it is a polled
-- deployment with a target and a generation that failed, rolled back or needs attention; every other transition
-- leaves the poll states.
pub transition_outcome :
    (id : Uuid) (phase : DeploymentPhase) (status : DeploymentStatus) (outcome : String)
    (code : Option String) (now : Time) (db : Database)
    → IsUnique db.deployments
    → let moved = transition id phase status outcome code now db in
      ((count_where (λ r. r.id == id && is_open r.status) db.deployments ≡ 0)
        × (moved ≡ err LedgerError.state_changed))
      ⊎ ((row : Deployment) × (next : Database) × (get id db ≡ some row)
          × (is_open row.status ≡ true)
          × (moved ≡ ok next)
          × Moved id phase status outcome code now row db next)
unfolding transition conclude get is_open_row
transition_outcome id phase status outcome code now db u =
    elim (Bool-cases (count_where (is_open_row id) db.deployments == 1)) [
      | inl e ↦
          let (row, found, opened) =
            find_where_one (is_open_row id) (has_id id) db.deployments (is_open_row-has_id id)
              (u.one_row id)
              (omega (arith, (==_iff (count_where (is_open_row id) db.deployments) 1).0 e)) in
          let (next, moved, facts) =
            committed id phase status outcome code now row db found opened in
          inr (row, next, found, is_open_row-is_open id row opened, rw e moved, facts)
      | inr e ↦ inl (
        none_of _ e (
            le_trans
              (count_where_mono (is_open_row id) (has_id id) db.deployments (is_open_row-has_id id))
              (u.one_row id)),
        rw e,
      )
    ]

-- A restart's `interrupt_nonterminal` leaves no open deployment, and reports how many there were. A
-- deployment that is there before is there afterwards: ended as `interrupted` if it was open, and as
-- it was otherwise.
pub interrupt_nonterminal_outcome :
    (now : Time) (db : Database) (id : Uuid) (row : Deployment)
    → get id db ≡ some row
    → let (next, changed) = interrupt_nonterminal now db in
      (active_count next ≡ 0)
      × (changed ≡ active_count db)
      × (get id next ≡ some (if is_open row.status then interrupt now row else row))
unfolding interrupt_nonterminal active_count get interrupt is_open
interrupt_nonterminal_outcome now db id row h = (
  count_where-update_none row_is_open (interrupt now) db.deployments (λ r. refl),
  refl,
  find_where-update row_is_open (has_id id) (interrupt now) db.deployments row (λ s. refl) h,
)
