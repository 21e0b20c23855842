-- ===== src/Deploy/Ledger/Numbering.antt =====
-- The transitions of a deployment are numbered 1, 2, 3, … (src/deploy/ledger.rs).
use solodock.Deploy.Ledger.Extends.{continued, opened, same, step-Extends, HasRow, Extends}
use solodock.Deploy.Ledger.Change.{step-Change, updated, inserted, kept, Change}
use solodock.Base.Table.{count_where-update_eq, count_where-append, count_where}
use solodock.Base.{
  zero, suc, max, ◌⊎◌, length, arith, ==_iff, ◌+◌, inr, inl, ◌==◌, [], ◌++◌, suc, if◌then◌else◌,
  Bool-cases, ◌∷◌, ◌<◌, List, ℕ, ◌≡◌, refl,
}
use solodock.Database.{empty_database, DeploymentTransition, Uuid, Time, Database, Deployment}
use solodock.Deploy.Ledger.Rows.{max_seq, has_id}
use solodock.Deploy.Ledger.Calls.{Call, step, run}

-- The sequence numbers of one deployment, in the order of the log.
abbrev pub seqs : Uuid → List DeploymentTransition → List ℕ
seqs id [] = []
seqs id (t ∷ ts) = if t.deployment_id == id then t.seq ∷ seqs id ts else seqs id ts

-- n, n + 1, n + 2, …
abbrev pub Counts : ℕ → List ℕ → Type 0
Counts n [] = Unit
Counts n (x ∷ xs) = (x ≡ n) × Counts (suc n) xs

pub record IsNumbered (db : Database) : Type 0 where
  pub counted : (id : Uuid) → Counts 1 (seqs id db.transitions)
  pub owned : (id : Uuid) → count_where (has_id id) db.deployments ≡ 0 → seqs id db.transitions ≡ []

Counts-snoc :
    (n : ℕ) (xs : List ℕ) (x : ℕ) → Counts n xs → x ≡ n + length xs → Counts n (xs ++ x ∷ [])
Counts-snoc n [] x h e = (omega arith, tt)
Counts-snoc n (y ∷ ys) x h e = (h.0, Counts-snoc (suc n) ys x h.1 (omega arith))

maximum : List ℕ → ℕ
maximum [] = 0
maximum (x ∷ xs) = max x (maximum xs)

max_seq-maximum :
    (id : Uuid) (ts : List DeploymentTransition) → max_seq id ts ≡ maximum (seqs id ts)
unfolding max_seq maximum
max_seq-maximum id [] = refl
max_seq-maximum id (t ∷ ts) = ground (arith, max_seq-maximum id ts)

Counts-maximum : (n : ℕ) (xs : List ℕ) → Counts (suc n) xs → max n (maximum xs) ≡ n + length xs
unfolding maximum
Counts-maximum n [] h = omega arith
Counts-maximum n (x ∷ xs) h = omega (arith, h.0, Counts-maximum (suc n) xs h.1)

seqs-snoc :
    (id : Uuid) (ts : List DeploymentTransition) (t : DeploymentTransition)
    → seqs id (ts ++ t ∷ [])
      ≡ (if t.deployment_id == id then seqs id ts ++ t.seq ∷ [] else seqs id ts)
seqs-snoc id [] t = ground arith
seqs-snoc id (u ∷ ts) t = ground (arith, seqs-snoc id ts t)

-- Ids never leave the table.
absent-before :
    (id : Uuid) (rows next : List Deployment)
    → Change rows next
    → count_where (has_id id) next ≡ 0
    → count_where (has_id id) rows ≡ 0
absent-before id rows next (kept e) h = rw e at h
absent-before id rows next (inserted row free q e) h =
    omega (arith, count_where-append (has_id id) rows (row ∷ []), (rw e at h))
absent-before id rows next (updated p f sound e) h =
    omega
      (arith, count_where-update_eq p (has_id id) f rows (λ r. rw (sound.keeps_id r)), (rw e at h))

pub present-after :
    (id : Uuid) (rows next : List Deployment) → Change rows next → HasRow id rows → HasRow id next
present-after id rows next change h = elim (positive (count_where (has_id id) next)) [
  | inl gone ↦ absurd (omega (arith, absent-before id rows next change gone, h))
  | inr there ↦ there
]
  where
    positive : (n : ℕ) → (n ≡ 0) ⊎ (0 < n)
    positive zero = inl refl
    positive (suc n) = inr (omega arith)

snoc-counted :
    (id : Uuid) (ts : List DeploymentTransition) (t : DeploymentTransition)
    → t.seq ≡ 1 + length (seqs t.deployment_id ts)
    → Counts 1 (seqs id ts)
    → Counts 1 (seqs id (ts ++ t ∷ []))
snoc-counted id ts t e c = elim (Bool-cases (t.deployment_id == id)) [
  | inl own ↦
      rw (seqs-snoc id ts t, own)
        (Counts-snoc 1 (seqs id ts) t.seq c (rw ((==_iff t.deployment_id id).0 own) at e))
  | inr other ↦ rw (seqs-snoc id ts t, other) c
]

snoc-owned :
    (id : Uuid) (ts : List DeploymentTransition) (t : DeploymentTransition) (rows : List Deployment)
    → HasRow t.deployment_id rows
    → count_where (has_id id) rows ≡ 0
    → seqs id ts ≡ []
    → seqs id (ts ++ t ∷ []) ≡ []
snoc-owned id ts t rows there gone c = elim (Bool-cases (t.deployment_id == id)) [
  | inl own ↦ absurd (omega (arith, gone, rw ((==_iff t.deployment_id id).0 own) at there))
  | inr other ↦ rw (seqs-snoc id ts t, other) c
]

snoc-IsNumbered :
    (db next : Database) (t : DeploymentTransition)
    → Change db.deployments next.deployments
    → t.seq ≡ 1 + length (seqs t.deployment_id db.transitions)
    → HasRow t.deployment_id next.deployments
    → next.transitions ≡ db.transitions ++ t ∷ []
    → IsNumbered db
    → IsNumbered next
snoc-IsNumbered db next t change number there e v = record {
  counted = λ id. rw e (snoc-counted id db.transitions t number (v.counted id));
  owned = λ id gone. rw e (
      snoc-owned id db.transitions t next.deployments there gone
        (v.owned id (absent-before id _ _ change gone)));
}

Extends-IsNumbered :
    (db next : Database)
    → Change db.deployments next.deployments
    → Extends db next
    → IsNumbered db
    → IsNumbered next
Extends-IsNumbered db next change (same e) v = record {
  counted = λ id. rw e (v.counted id);
  owned = λ id h. rw e (v.owned id (absent-before id _ _ change h));
}
Extends-IsNumbered db next change (opened t one fresh there e) v =
    snoc-IsNumbered db next t change (rw (v.owned t.deployment_id fresh) one) there e v
Extends-IsNumbered db next change (continued t one there e) v =
    snoc-IsNumbered db next t change
      (omega (
        arith,
        one,
        max_seq-maximum t.deployment_id db.transitions,
        Counts-maximum 0 _ (v.counted t.deployment_id),
      ))
      (present-after t.deployment_id _ _ change there) e v

run-IsNumbered : (cs : List (Time × Call)) (db : Database) → IsNumbered db → IsNumbered (run db cs)
unfolding run
run-IsNumbered [] db v = v
run-IsNumbered ((now, c) ∷ cs) db v =
    run-IsNumbered cs (step db (now, c))
      (Extends-IsNumbered _ _ (step-Change db now c) (step-Extends db now c) v)

empty-IsNumbered : IsNumbered empty_database
empty-IsNumbered = record { counted = λ id. tt; owned = λ id h. refl }

-- In every database that the ledger's calls make of an empty one, the transitions of each deployment
-- are numbered 1, 2, 3, … in the order in which they were written.
pub run-numbered :
    (cs : List (Time × Call)) (id : Uuid) → Counts 1 (seqs id (run empty_database cs).transitions)
run-numbered cs id = (run-IsNumbered cs empty_database empty-IsNumbered).counted id
