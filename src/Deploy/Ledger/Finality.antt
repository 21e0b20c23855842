-- ===== src/Deploy/Ledger/Finality.antt =====
-- What no sequence of ledger calls changes in a deployment that has ended (src/deploy/ledger.rs).
use solodock.Base.{
  ◌≡◌, refl, ◌∙◌, ap, true, false, some, List, [], ◌∷◌, arith, Bool-cases, inl, inr,
}
use solodock.Base.Table.{find_where, find_where-update, find_where-append}
use solodock.Database.{Uuid, Time, Database, Deployment, DeploymentStatus}
use solodock.Database.Status.{is_terminal, is_open}
use solodock.Deploy.Ledger.Rows.{has_id}
use solodock.Deploy.Ledger.Transactions.{get}
use solodock.Deploy.Ledger.Calls.{Call, step, run}
use solodock.Deploy.Ledger.Change.{Change, kept, inserted, updated, sealed, step-Change}

-- The row with this id is `row`, but for the columns that `sealed` leaves out.
abbrev pub Holds : Uuid → Deployment → Database → Type 0
Holds id row db = (now : Deployment) × (get id db ≡ some now) × (sealed now ≡ sealed row)

terminal→closed : (s : DeploymentStatus) → is_terminal s ≡ true → is_open s ≡ false
unfolding is_terminal is_open
terminal→closed s h = ground arith

closed_kept :
    (id : Uuid) (row : Deployment) (rows next : List Deployment)
    → Change rows next
    → find_where (has_id id) rows ≡ some row
    → is_open row.status ≡ false
    → (after : Deployment) × (find_where (has_id id) next ≡ some after)
      × (sealed after ≡ sealed row)
closed_kept id row rows next (kept e) h c = rw e (row, h, refl)
closed_kept id row rows next (inserted new free q e) h c =
    rw e (row, find_where-append _ rows _ row h, refl)
closed_kept id row rows next (updated p f sound e) h c =
    let there = find_where-update p (has_id id) f rows row (λ s. rw (sound.keeps_id s)) h in
    rw e (elim (Bool-cases (p row)) [
      | inl hit ↦ (f row, rw hit at there, sound.seals row hit c)
      | inr miss ↦ (row, rw miss at there, refl)
    ])

run-closed :
    (id : Uuid) (row : Deployment) (cs : List (Time × Call)) (db : Database)
    → get id db ≡ some row
    → is_open row.status ≡ false
    → Holds id row (run db cs)
unfolding run get
run-closed id row [] db h c = (row, h, refl)
run-closed id row ((now, call) ∷ cs) db h c =
    let (after, found, same) = closed_kept id row _ _ (step-Change db now call) h c in
    let (last, there, again) =
      run-closed id after cs (step db (now, call)) found
        (rw (ap (λ (r : Deployment). r.status) same) c) in
    (last, there, again ∙ same)

-- A deployment whose status is terminal keeps every column but `health_policy`, `health_result` and
-- `updated_at`, whatever calls of the ledger follow.
pub run-final :
    (id : Uuid) (row : Deployment) (cs : List (Time × Call)) (db : Database)
    → get id db ≡ some row
    → is_terminal row.status ≡ true
    → Holds id row (run db cs)
run-final id row cs db h t = run-closed id row cs db h (terminal→closed row.status t)
