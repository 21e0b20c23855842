-- ===== src/Deploy/Health/Rounds.antt =====
-- What a passed verification has seen, and that verification ends (src/deploy/health.rs).
use solodock.Base.{
  ℕ, ◌-◌, ◌≤◌, ◌<◌, ◌≡◌, refl, sym, ap, ◌∙◌, ◌⊎◌, inl, inr, Bool, true, false, ◌&&◌, Option, none,
  some, List, [], ◌∷◌, ◌++◌, arith, if◌then◌else◌, option_eq, Bool-cases, Result, ok, Result-cases,
  ◌/◌,
}
use solodock.Base.Int.{int_eq, option_int_iff}
use mathlib.Core.List.{append_assoc}
use solodock.Base.Text.{same}
use solodock.Deploy.Health.{
  watch_from, watch_rounds, verify, round_verdict, failed, HealthError, Verdict, rebase, judge,
  policy_ready, get_or_insert, stable_required, passed, inspect_before, again, HealthResult,
  ContainerRecord, ℤ, Round, settle, Subject, UuidCrate, Watch,
}

and_right : (a b : Bool) → (a && b) ≡ true → b ≡ true
and_right a b h = ground arith

pub Verdict-cases :
    (v : Verdict)
    → ((r : HealthResult) × (v ≡ passed r))
      ⊎ (((e : HealthError) × (v ≡ failed e)) ⊎ ((w : Watch) × (v ≡ again w)))
Verdict-cases (passed r) = inl (r, refl)
Verdict-cases (failed e) = inr (inl (e, refl))
Verdict-cases (again w) = inr (inr (w, refl))

ok-injective :
    {a b : HealthResult} → ◌≡◌ {A = Result HealthError HealthResult} (ok a) (ok b) → a ≡ b
ok-injective h = cc

some-injective : {a b : Result HealthError HealthResult} → some a ≡ some b → a ≡ b
some-injective h = cc

settle_passed :
    (subject : Subject) (round : Round) (watch : Watch) (c : ContainerRecord) (ready : Bool)
    (result : HealthResult)
    → settle subject round watch c ready ≡ passed result
    → (ready ≡ true)
      × (stable_required subject.policy
          ≤ (round.judged - get_or_insert watch.running_since round.judged) / 1000)
      × (result.verified_container ≡ c)
      × (result.restart_count ≡ c.restart_count)
      × (result.elapsed_seconds ≡ round.judged / 1000)
unfolding settle
settle_passed subject round watch c ready result h = ground arith

pub settle_again :
    (subject : Subject) (round : Round) (watch next : Watch) (c : ContainerRecord) (ready : Bool)
    → settle subject round watch c ready ≡ again next
    → (next.baseline_restarts ≡ watch.baseline_restarts)
      × (next.running_since
          ≡ (if ready then some (get_or_insert watch.running_since round.judged) else none))
      × (round.woken < subject.deadline)
unfolding settle
settle_again subject round watch next c ready h = ground arith

rebase_keeps :
    (watch : Watch) (c : ContainerRecord)
    → ((rebase watch c).baseline_restarts ≡ watch.baseline_restarts)
      × ((rebase watch c).running_since ≡ watch.running_since)
unfolding rebase
rebase_keeps watch c = ground arith

-- The steps of `judge` that lead to a verdict other than an error.
judge_ready :
    (subject : Subject) (round : Round) (watch : Watch) (c : ContainerRecord) (verdict : Verdict)
    → judge subject round watch c ≡ verdict
    → ((error : HealthError) × (verdict ≡ failed error))
      ⊎ ((ready : Bool) × (policy_ready c subject.policy ≡ ok ready)
          × (c.restart_count ≡ watch.baseline_restarts)
          × (settle subject round (rebase watch c) c ready ≡ verdict))
unfolding judge
judge_ready subject round watch c verdict h =
    let base = rebase watch c in
    elim (Bool-cases (
      option_eq same c.started_at base.baseline_started
      && option_eq int_eq c.restart_count base.baseline_restarts)) [
        | inl e ↦ elim (Result-cases (policy_ready c subject.policy)) [
          | inl (ready, r) ↦ inr (
            ready,
            r,
            (option_int_iff c.restart_count base.baseline_restarts).0 (and_right _ _ e)
                ∙ (rebase_keeps watch c).0,
            rw (e, r) at h,
          )
          | inr (error, r) ↦ inl (error, sym (rw (e, r) at h))
        ]
        | inr e ↦ inl (HealthError.restarted, sym (rw e at h))
      ]

regroup :
    (before streak : List Round) (round : Round) (rounds : List Round)
    → before ++ (streak ++ round ∷ rounds) ≡ (before ++ (streak ++ round ∷ [])) ++ rounds
regroup before streak round rounds = simp append_assoc

module _ (uuid : UuidCrate) where
  -- In this round an exact container is observed that is ready, with this restart count.
  pub record Sees (subject : Subject) (restarts : Option ℤ) (round : Round) (c : ContainerRecord)
      : Type 0 where
    pub exact : inspect_before uuid subject round ≡ ok c
    pub ready : policy_ready c subject.policy ≡ ok true
    pub same_restarts : c.restart_count ≡ restarts

  -- Consecutive rounds, each of which sees a ready container, from the time `since` on.
  pub data Streak (subject : Subject) (restarts : Option ℤ) (since : ℕ) : List Round → Type 0 where
    begins :
        (round : Round) (c : ContainerRecord)
        → Sees subject restarts round c
        → round.judged ≡ since
        → {rounds : List Round} → rounds ≡ round ∷ []
        → Streak subject restarts since rounds
    extends :
        (earlier : List Round) (round : Round) (c : ContainerRecord)
        → Streak subject restarts since earlier
        → Sees subject restarts round c
        → {rounds : List Round} → rounds ≡ earlier ++ round ∷ []
        → Streak subject restarts since rounds

  -- The streak that `running_since` stands for.
  abbrev Since : Subject → Option ℤ → Option ℕ → List Round → Type 0
  Since subject restarts none rounds = rounds ≡ []
  Since subject restarts (some since) rounds = Streak subject restarts since rounds

  -- Among `rounds` stands a streak whose last round is the one in which `result` was verified, and that
  -- lasts as long as the policy requires, from its first round to its last.
  pub data Passed (subject : Subject) (restarts : Option ℤ) (result : HealthResult)
      (rounds : List Round) : Type 0 where
    passed_after :
        (before earlier later : List Round) (since : ℕ) (last : Round)
        → rounds ≡ before ++ ((earlier ++ last ∷ []) ++ later)
        → Streak subject restarts since (earlier ++ last ∷ [])
        → stable_required subject.policy ≤ (last.judged - since) / 1000
        → Sees subject restarts last result.verified_container
        → result.restart_count ≡ restarts
        → result.elapsed_seconds ≡ last.judged / 1000
        → Passed subject restarts result rounds

  pub exact_round :
      (subject : Subject) (watch : Watch) (round : Round) (verdict : Verdict)
      → round_verdict uuid subject watch round ≡ verdict
      → ((error : HealthError) × (verdict ≡ failed error))
        ⊎ ((c : ContainerRecord) × (ready : Bool) × (inspect_before uuid subject round ≡ ok c)
            × (policy_ready c subject.policy ≡ ok ready)
            × (c.restart_count ≡ watch.baseline_restarts)
            × (settle subject round (rebase watch c) c ready ≡ verdict))
  unfolding round_verdict
  exact_round subject watch round verdict h =
      elim (Result-cases (inspect_before uuid subject round)) [
        | inl (c, e) ↦ elim (judge_ready subject round watch c verdict (rw e at h)) [
          | inl (error, f) ↦ inl (error, f)
          | inr (ready, p, s, t) ↦ inr (c, ready, e, p, s, t)
        ]
        | inr (error, e) ↦ inl (error, sym (rw e at h))
      ]

  grow :
      (subject : Subject) (restarts : Option ℤ) (since : Option ℕ) (streak : List Round)
      (round : Round) (c : ContainerRecord)
      → Since subject restarts since streak
      → Sees subject restarts round c
      → Streak subject restarts (get_or_insert since round.judged) (streak ++ round ∷ [])
  unfolding get_or_insert
  grow subject restarts none streak round c e sees = begins round c sees refl (rw e)
  grow subject restarts (some since) streak round c s sees = extends streak round c s sees refl

  passed_round :
      (subject : Subject) (watch : Watch) (round : Round) (result : HealthResult)
      (before streak later whole : List Round)
      → round_verdict uuid subject watch round ≡ passed result
      → Since subject watch.baseline_restarts watch.running_since streak
      → whole ≡ before ++ (streak ++ round ∷ later)
      → Passed subject watch.baseline_restarts result whole
  passed_round subject watch round result before streak later whole h since e =
      elim (exact_round subject watch round (passed result) h) [
        | inl (error, f) ↦ cc
        | inr (c, ready, x, p, s, t) ↦
            let (yes', long, same_c, r, el) =
              settle_passed subject round (rebase watch c) c ready result t in
            let sees : Sees subject watch.baseline_restarts round c = record {
              exact = x;
              ready = rw yes' at p;
              same_restarts = s;
            } in
            passed_after before streak later (get_or_insert watch.running_since round.judged) round
              (e ∙ ap (◌++◌ before) (sym (append_assoc streak (round ∷ []) later)))
              (grow subject watch.baseline_restarts watch.running_since streak round c since sees)
              (rw (rebase_keeps watch c).1 at long) (rw same_c sees) (r ∙ s) el
      ]

  next-Since :
      (subject : Subject) (restarts : Option ℤ) (since after_round : Option ℕ) (streak : List Round)
      (round : Round) (c : ContainerRecord) (ready : Bool)
      → inspect_before uuid subject round ≡ ok c
      → policy_ready c subject.policy ≡ ok ready
      → c.restart_count ≡ restarts
      → after_round ≡ (if ready then some (get_or_insert since round.judged) else none)
      → Since subject restarts since streak
      → Since subject restarts after_round (streak ++ round ∷ [])
        ⊎ Since subject restarts after_round []
  next-Since subject restarts since after_round streak round c true x p s n old = inl (
      rw n (
        grow subject restarts since streak round c old
          (record { exact = x; ready = p; same_restarts = s })))
  next-Since subject restarts since after_round streak round c false x p s n old = inr (rw n refl)

  -- What the next round starts from: the streak grows, or is over.
  again_round :
      (subject : Subject) (watch next : Watch) (round : Round) (streak : List Round)
      → round_verdict uuid subject watch round ≡ again next
      → Since subject watch.baseline_restarts watch.running_since streak
      → (next.baseline_restarts ≡ watch.baseline_restarts)
        × (Since subject watch.baseline_restarts next.running_since (streak ++ round ∷ [])
            ⊎ Since subject watch.baseline_restarts next.running_since [])
  again_round subject watch next round streak h since =
      elim (exact_round subject watch round (again next) h) [
        | inl (error, f) ↦ cc
        | inr (c, ready, x, p, s, t) ↦
            let (r, n, w) = settle_again subject round (rebase watch c) next c ready t in
            (
              r ∙ (rebase_keeps watch c).0,
              next-Since subject watch.baseline_restarts watch.running_since next.running_since
                  streak round c ready x p s (rw (rebase_keeps watch c).1 at n) since,
            )
      ]

  watch-Passed :
      (subject : Subject) (result : HealthResult) (rounds : List Round) (watch : Watch)
      (before streak whole : List Round)
      → Since subject watch.baseline_restarts watch.running_since streak
      → whole ≡ before ++ (streak ++ rounds)
      → watch_rounds uuid subject watch rounds ≡ some (ok result)
      → Passed subject watch.baseline_restarts result whole
  unfolding watch_rounds
  watch-Passed subject result [] watch before streak whole since e h = cc
  watch-Passed subject result (round ∷ rounds) watch before streak whole since e h =
      elim (Verdict-cases (round_verdict uuid subject watch round)) [
        | inl (res, v) ↦
            let same_result = ok-injective (some-injective (rw (v, watch_rounds) at h)) in
            rw same_result at
              (passed_round subject watch round res before streak rounds whole v since e)
        | inr (inl (error, v)) ↦ let bad = rw (v, watch_rounds) at h in cc
        | inr (inr (next, v)) ↦
            let (r, either) = again_round subject watch next round streak v since in
            let rest = rw (v, watch_rounds) at h in
            let done : Passed subject next.baseline_restarts result whole = elim either [
              | inl grown ↦
                  watch-Passed subject result rounds next before (streak ++ round ∷ []) whole
                    (rw r grown)
                    (e ∙ ap (◌++◌ before) (sym (append_assoc streak (round ∷ []) rounds))) rest
              | inr over ↦
                  watch-Passed subject result rounds next (before ++ (streak ++ round ∷ [])) []
                    whole (rw r over) (e ∙ regroup before streak round rounds) rest
            ] in
            rw r at done
      ]

  -- Among the rounds of a passed verification stand consecutive ones, each of which sees an exact ready
  -- container, with the restart count of the first inspection throughout. From the first of them to the
  -- last it takes as long as the policy requires, and the container, the restart count and the elapsed
  -- time of the result are those of the last of them.
  pub verify-Passed :
      (subject : Subject) (first : Round) (rounds : List Round) (result : HealthResult)
      → verify uuid subject first rounds ≡ some (ok result)
      → (c : ContainerRecord) × (inspect_before uuid subject first ≡ ok c)
        × Passed subject c.restart_count result rounds
  unfolding verify watch_from
  verify-Passed subject first rounds result h =
      elim (Result-cases (inspect_before uuid subject first)) [
        | inl (c, e) ↦ (
          c,
          e,
          watch-Passed subject result rounds (watch_from c) [] [] rounds refl refl
              (rw (e, verify) at h),
        )
        | inr (error, e) ↦ let bad = rw (e, verify) at h in cc
      ]
