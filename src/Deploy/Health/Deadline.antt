-- ===== src/Deploy/Health/Deadline.antt =====
-- That a verification ends by its deadline (src/deploy/health.rs).
use solodock.Base.{
  ℕ, ◌+◌, ◌≤◌, ◌<◌, ◌≡◌, refl, ap, ◌⊎◌, inl, inr, none, some, List, [], ◌∷◌, arith, Option-cases,
  length, Result, err, ◌*◌, Result-cases,
}
use solodock.Deploy.Health.Rounds.{Verdict-cases, settle_again, exact_round}
use solodock.Deploy.Health.{
  inspect_before, HealthResult, rebase, HealthError, watch_from, round_verdict, watch_rounds,
  verify, Subject, UuidCrate, Round, again, Watch,
}

-- Each round ends a second or more after the one before: it sleeps for a second.
abbrev pub Paced : ℕ → List Round → Type 0
Paced t [] = Unit
Paced t (round ∷ rounds) = (t + 1000 ≤ round.woken) × Paced round.woken rounds

module _ (uuid : UuidCrate) where
  again_woken :
      (subject : Subject) (watch next : Watch) (round : Round)
      → round_verdict uuid subject watch round ≡ again next
      → round.woken < subject.deadline
  again_woken subject watch next round h =
      elim (exact_round uuid subject watch round (again next) h) [
        | inl (error, f) ↦ cc
        | inr (c, ready, x, p, s, t) ↦
            (settle_again subject round (rebase watch c) next c ready t).2
      ]

  unfinished :
      (subject : Subject) (rounds : List Round) (watch : Watch) (t : ℕ)
      → Paced t rounds
      → watch_rounds uuid subject watch rounds ≡ none
      → (rounds ≡ []) ⊎ (t + 1000 * length rounds < subject.deadline)
  unfolding watch_rounds
  unfinished subject [] watch t p h = inl refl
  unfinished subject (round ∷ rounds) watch t p h =
      elim (Verdict-cases (round_verdict uuid subject watch round)) [
        | inl (res, v) ↦ let bad = rw (v, watch_rounds) at h in cc
        | inr (inl (error, v)) ↦ let bad = rw (v, watch_rounds) at h in cc
        | inr (inr (next, v)) ↦
            let woken = again_woken subject watch next round v in
            inr (elim (unfinished subject rounds next round.woken p.1 (rw (v, watch_rounds) at h)) [
              | inl e ↦ omega (arith, woken, p.0, ap length e)
              | inr later ↦ omega (arith, later, p.0)
            ])
      ]

  -- Once the paced rounds of the loop, one or more, reach the deadline, `verify` has returned a result
  -- or an error.
  pub verify_ends :
      (subject : Subject) (first : Round) (rounds : List Round) (t : ℕ)
      → Paced t rounds
      → 0 < length rounds
      → subject.deadline ≤ t + 1000 * length rounds
      → (r : Result HealthError HealthResult) × (verify uuid subject first rounds ≡ some r)
  unfolding verify watch_from
  verify_ends subject first rounds t p n d =
      elim (Result-cases (inspect_before uuid subject first)) [
        | inl (c, e) ↦ elim (Option-cases (watch_rounds uuid subject (watch_from c) rounds)) [
          | inl none_yet ↦ absurd (elim (unfinished subject rounds (watch_from c) t p none_yet) [
            | inl nil ↦ omega (arith, ap length nil)
            | inr short ↦ omega arith
          ])
          | inr (r, found) ↦ (r, rw (e, verify) found)
        ]
        | inr (error, e) ↦ (err error, rw (e, verify))
      ]
