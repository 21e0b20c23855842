-- ===== src/Retention/Kept.antt =====
-- Which releases `retained_releases` keeps (src/retention.rs).
use solodock.Base.{
  sym, ap, ℕ, max, ◌≤◌, ◌≡◌, refl, ◌⊎◌, inl, inr, true, ◌||◌, Option, none, some, List, [], ◌∷◌,
  leb, ◌==◌, length, arith, Bool-cases, ==_iff, ==_refl,
}
use solodock.Database.{Uuid}
use solodock.Retention.{contains, insert, retain_successes, retained_releases}

contains-insert :
    (id new : Uuid) (set : List Uuid)
    → contains id (insert new set) ≡ ((new == id) || contains id set)
unfolding insert
contains-insert id new set = elim (Bool-cases (contains new set)) [
  | inl there ↦ rw there (elim (Bool-cases (new == id)) [
    | inl same_id ↦ rw (same_id, sym ((==_iff new id).0 same_id)) there
    | inr other ↦ rw other refl
  ])
  | inr absent ↦ rw absent refl
]

retain_successes_kept :
    (keep : ℕ) (id : Uuid) (successes retained : List Uuid)
    → contains id retained ≡ true
    → contains id (retain_successes keep retained successes) ≡ true
unfolding retain_successes
retain_successes_kept keep id [] retained h = h
retain_successes_kept keep id (r ∷ rs) retained h = elim (Bool-cases (leb keep (length retained))) [
  | inl full ↦ rw full h
  | inr room ↦ rw room (
      retain_successes_kept keep id rs (insert r retained)
        (rw (contains-insert id r retained) (ground (arith, h))))
]

length-retain_successes :
    (keep : ℕ) (successes retained : List Uuid)
    → length (retain_successes keep retained successes) ≤ max keep (length retained)
unfolding retain_successes insert
length-retain_successes keep [] retained = omega arith
length-retain_successes keep (r ∷ rs) retained = elim (Bool-cases (leb keep (length retained))) [
  | inl full ↦ rw full (omega arith)
  | inr room ↦ rw room (ground (arith, length-retain_successes keep rs (insert r retained)))
]

retain_successes_newest :
    (keep : ℕ) (id : Uuid) (successes retained : List Uuid)
    → contains id successes ≡ true
    → (contains id (retain_successes keep retained successes) ≡ true)
      ⊎ (keep ≤ length (retain_successes keep retained successes))
unfolding retain_successes
retain_successes_newest keep id [] retained h = cc
retain_successes_newest keep id (r ∷ rs) retained h =
    elim (Bool-cases (leb keep (length retained))) [
      | inl full ↦ rw full (inr (ground (arith, full)))
      | inr room ↦ rw room (elim (Bool-cases (r == id)) [
        | inl hit ↦ inl (
            retain_successes_kept keep id rs (insert r retained)
              (rw (contains-insert id r retained, hit) refl))
        | inr miss ↦ retain_successes_newest keep id rs (insert r retained) (rw miss at h)
      ])
    ]

retain_successes_only :
    (keep : ℕ) (id : Uuid) (successes retained : List Uuid)
    → contains id (retain_successes keep retained successes) ≡ true
    → (contains id retained || contains id successes) ≡ true
unfolding retain_successes
retain_successes_only keep id [] retained h = ground (arith, h)
retain_successes_only keep id (r ∷ rs) retained h = elim (Bool-cases (leb keep (length retained))) [
  | inl full ↦ let there = rw full at h in ground (arith, there)
  | inr room ↦
      let rest = retain_successes_only keep id rs (insert r retained) (rw room at h) in
      let split = rw (contains-insert id r retained) at rest in ground (arith, split)
]

-- The active release is kept whatever the number of versions, and no more releases are kept than that
-- number, or than one where it is 0.
pub retained_releases-active :
    (active : Uuid) (keep : ℕ) (successes : List Uuid)
    → (contains active (retained_releases (some active) keep successes) ≡ true)
      × (length (retained_releases (some active) keep successes) ≤ max keep 1)
unfolding retained_releases
retained_releases-active active keep successes = (
  retain_successes_kept keep active successes (active ∷ []) (rw (==_refl active) refl),
  length-retain_successes keep successes (active ∷ []),
)

-- A successful release is kept, or the number of versions is reached without it.
pub retained_releases-newest :
    (active : Option Uuid) (keep : ℕ) (successes : List Uuid) (id : Uuid)
    → contains id successes ≡ true
    → (contains id (retained_releases active keep successes) ≡ true)
      ⊎ (keep ≤ length (retained_releases active keep successes))
unfolding retained_releases
retained_releases-newest none keep successes id h = retain_successes_newest keep id successes [] h
retained_releases-newest (some active) keep successes id h =
    retain_successes_newest keep id successes (active ∷ []) h

-- Only the active release and the successful ones are kept.
pub retained_releases-only :
    (active : Option Uuid) (keep : ℕ) (successes : List Uuid) (id : Uuid)
    → contains id (retained_releases active keep successes) ≡ true
    → (active ≡ some id) ⊎ (contains id successes ≡ true)
unfolding retained_releases
retained_releases-only none keep successes id h = inr (retain_successes_only keep id successes [] h)
retained_releases-only (some active) keep successes id h =
    let either = retain_successes_only keep id successes (active ∷ []) h in
    elim (Bool-cases (active == id)) [
      | inl same_id ↦ inl (ap some ((==_iff active id).0 same_id))
      | inr other ↦ inr (ground (arith, either, other))
    ]
