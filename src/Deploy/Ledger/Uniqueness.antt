-- ===== src/Deploy/Ledger/Uniqueness.antt =====
-- One row for an id, and one open deployment for an application (src/deploy/ledger.rs and the index
-- `deployments_one_nonterminal_per_app`).
use solodock.Base.{==_iff, ◌≤◌, ◌≡◌, refl, Bool, true, ◌&&◌, List, [], ◌∷◌, ◌++◌, arith, ◌==◌}
use solodock.Base.Table.{
  count_where, count_where-append, count_where-update_le, count_where-update_eq,
}
use solodock.Database.{Uuid, Time, Database, Deployment}
use solodock.Database.Status.{is_open}
use solodock.Deploy.Ledger.Rows.{has_id, violates_unique}
use solodock.Deploy.Ledger.Calls.{Call, step, run}
use solodock.Deploy.Ledger.Change.{Change, kept, inserted, updated, step-Change, IsSound}

-- `WHERE app_id=? AND status IN ('queued','running')`.
abbrev pub is_open_of : Uuid → Deployment → Bool
is_open_of app row = row.app_id == app && is_open row.status

pub record IsUnique (rows : List Deployment) : Type 0 where
  pub one_row : (id : Uuid) → count_where (has_id id) rows ≤ 1
  pub one_open : (app : Uuid) → count_where (is_open_of app) rows ≤ 1

-- A row that violates no constraint against `row` shares neither its id nor an open application.
pub violates-ids :
    (id app : Uuid) (rows : List Deployment)
    → count_where (violates_unique id app) rows ≡ 0
    → count_where (has_id id) rows ≡ 0
unfolding violates_unique
violates-ids id app [] h = refl
violates-ids id app (r ∷ rs) h = ground (arith, violates-ids id app rs)

pub violates-open :
    (id app : Uuid) (rows : List Deployment)
    → count_where (violates_unique id app) rows ≡ 0
    → count_where (is_open_of app) rows ≡ 0
unfolding violates_unique
violates-open id app [] h = refl
violates-open id app (r ∷ rs) h = ground (arith, violates-open id app rs)

count_one :
    (p : Deployment → Bool) (rows : List Deployment) (row : Deployment)
    → count_where p rows ≤ 1
    → (p row ≡ true → count_where p rows ≡ 0)
    → count_where p (rows ++ row ∷ []) ≤ 1
count_one p rows row h k = ground (arith, count_where-append p rows (row ∷ []))

same_app : (row : Deployment) (app : Uuid) → is_open_of app row ≡ true → row.app_id ≡ app
same_app row app h = ground (arith, ==_iff row.app_id app)

opens_app :
    (p : Deployment → Bool) (f : Deployment → Deployment) (sound : IsSound p f) (app : Uuid)
    (r : Deployment)
    → p r ≡ true
    → is_open_of app (f r) ≡ true
    → is_open_of app r ≡ true
opens_app p f sound app r h k = ground (arith, sound.keeps_app r, sound.opens_none r h)

pub Change-IsUnique :
    (rows next : List Deployment) → Change rows next → IsUnique rows → IsUnique next
Change-IsUnique rows next (kept e) u = rw e u
Change-IsUnique rows next (inserted row free q e) u = rw e (record {
  one_row = λ id.
      count_one (has_id id) rows row (u.one_row id)
        (λ h. violates-ids id row.app_id rows (rw ((==_iff row.id id).0 h) at free));
  one_open = λ app.
      count_one (is_open_of app) rows row (u.one_open app)
        (λ h. violates-open row.id app rows (rw (same_app row app h) at free));
})
Change-IsUnique rows next (updated p f sound e) u = rw e (record {
  one_row = λ id. omega (
    arith,
    count_where-update_eq p (has_id id) f rows (λ r. rw (sound.keeps_id r)),
    u.one_row id,
  );
  one_open = λ app. omega (
    arith,
    count_where-update_le p (is_open_of app) f rows (λ r h k. opens_app p f sound app r h k),
    u.one_open app,
  );
})

-- Every sequence of ledger calls keeps ids unique, and keeps the number of open deployments of each
-- application at one at most.
pub run-IsUnique :
    (cs : List (Time × Call)) (db : Database)
    → IsUnique db.deployments
    → IsUnique (run db cs).deployments
unfolding run
run-IsUnique [] db u = u
run-IsUnique ((now, c) ∷ cs) db u =
    run-IsUnique cs (step db (now, c)) (Change-IsUnique _ _ (step-Change db now c) u)
