-- ===== src/Registry/PollStates/Generation.antt =====
-- The compare-and-swap of a generation (src/registry/poll_state.rs, `try_initialize_generation`).
use solodock.Base.Table.{
  find_where-append_none, update_where_none, find_where-some, find_where-update, count_where_mono,
  find_where_one, find_where, count_where_none→find, count_where,
}
use solodock.Registry.PollStates.Rows.{of_app, of_generation, initialized, blank_state}
use solodock.Base.{
  ==_refl, ap, ◌∙◌, ==_iff, ◌==◌, text_eq, ◌⊎◌, option_eq, List, String, Option, true, false, none,
  some, [], ◌∷◌, ◌≡◌, ◌≤◌, refl, inl, inr, Bool-cases, arith,
}
use solodock.Database.{Uuid, Time, Database, PollState}
use solodock.Registry.PollStates.Store.{get, try_initialize_generation}
use solodock.Registry.PollStates.Invariant.{IsWell}

-- What a reader sees of an application: no row, or the generation of its row.
unfoldable pub generation_of : Option PollState → Option String
generation_of none = none
generation_of (some state) = some state.generation

of_generation-app :
    (app : Uuid) (generation : String) (r : PollState)
    → of_generation app generation r ≡ true
    → of_app app r ≡ true
unfolding of_generation
of_generation-app app generation r h = ground arith

count-generation_of :
    (app : Uuid) (generation : String) (states : List PollState)
    → count_where (of_app app) states ≤ 1
    → (count_where (of_generation app generation) states == 1)
      ≡ option_eq text_eq (generation_of (find_where (of_app app) states)) (some generation)
unfolding generation_of of_generation
count-generation_of app generation [] h = refl
count-generation_of app generation (s ∷ states) h = elim (Bool-cases (of_app app s)) [
  | inl hit ↦
      let rest =
        count_where_mono (of_generation app generation) (of_app app) states
          (λ r. of_generation-app app generation r) in
      rw hit (ground (arith, rest, h, hit))
  | inr miss ↦ rw miss (count-generation_of app generation states (rw miss at h))
]

-- A row that `try_initialize_generation` has just written.
abbrev pub IsFresh : String → Time → PollState → Type 0
IsFresh generation due state =
    (state.generation ≡ generation)
    × (state.enabled ≡ true)
    × (state.next_check_not_before ≡ some due)
    × (state.consecutive_transient_failures ≡ 0)
    × (state.suppressed_target_key ≡ none)

initialized-IsFresh :
    (generation : String) (due now : Time) (old : PollState)
    → IsFresh generation due (initialized generation due now old)
unfolding initialized
initialized-IsFresh generation due now old = (refl, refl, refl, refl, refl)

initialized-of_app :
    (app : Uuid) (generation : String) (due now : Time) (old : PollState)
    → of_app app (initialized generation due now old) ≡ of_app app old
unfolding initialized
initialized-of_app app generation due now old = refl

-- `try_initialize_generation` compares before it swaps: it answers true exactly when the row of the
-- application has the generation that was observed, or is missing where none was observed. The poll
-- states satisfy `IsWell` before it.
pub try_initialize_generation-compares :
    (app : Uuid) (observed : Option String) (generation : String) (due now : Time) (db : Database)
    → IsWell db.poll_states
    → (try_initialize_generation app observed generation due now db).1
      ≡ option_eq text_eq (generation_of (get app db)) observed
unfolding try_initialize_generation get generation_of
try_initialize_generation-compares app (some observed) generation due now db w =
    count-generation_of app observed db.poll_states (w.one_row app)
try_initialize_generation-compares app none generation due now db w =
    elim (Bool-cases (count_where (of_app app) db.poll_states == 0)) [
      | inl h ↦ rw (h, count_where_none→find (of_app app) db.poll_states ((==_iff _ _).0 h)) refl
      | inr h ↦
          let (state, e, hit) = find_where-some (of_app app) db.poll_states (ground (arith, h)) in
          rw (h, e) refl
    ]

-- Where `try_initialize_generation` answers false it changes nothing, and where it answers true the
-- row of the application has the new generation, is enabled and due at the given time, and has no
-- failure and no suppressed target. The poll states satisfy `IsWell` before it.
pub try_initialize_generation-swaps :
    (app : Uuid) (observed : Option String) (generation : String) (due now : Time) (db : Database)
    → IsWell db.poll_states
    → let (next, won) = try_initialize_generation app observed generation due now db in
      ((won ≡ false) × (next ≡ db))
      ⊎ ((won ≡ true)
          × ((state : PollState) × (get app next ≡ some state) × IsFresh generation due state))
unfolding try_initialize_generation get blank_state
try_initialize_generation-swaps app (some observed) generation due now db w =
    elim (Bool-cases (count_where (of_generation app observed) db.poll_states == 1)) [
      | inl h ↦
          let (state, e, hit) =
            find_where_one (of_generation app observed) (of_app app) db.poll_states
              (λ r. of_generation-app app observed r) (w.one_row app) (ground (arith, h)) in
          let there =
            find_where-update (of_generation app observed) (of_app app)
              (initialized generation due now) db.poll_states state
              (λ s. initialized-of_app app generation due now s) e
            ∙ rw hit refl in
          inr (
            h,
            (
              initialized generation due now state,
              there,
              initialized-IsFresh generation due now state,
            ),
          )
      | inr h ↦
          let none_there =
            update_where_none (of_generation app observed) (initialized generation due now)
              db.poll_states
              (ground (
                arith,
                h,
                count_where_mono (of_generation app observed) (of_app app) db.poll_states
                    (λ r. of_generation-app app observed r),
                w.one_row app,
              )) in
          inl (h, ap (λ states. record db { poll_states = states }) none_there)
    ]
try_initialize_generation-swaps app none generation due now db w =
    elim (Bool-cases (count_where (of_app app) db.poll_states == 0)) [
      | inl h ↦
          let row = record (blank_state app generation now) { next_check_not_before = some due } in
          let there =
            find_where-append_none (of_app app) db.poll_states (row ∷ []) ((==_iff _ _).0 h)
            ∙ rw (==_refl app) refl in
          rw h (inr (refl, (row, there, (refl, refl, refl, refl, refl))))
      | inr h ↦ rw h (inl (refl, refl))
    ]
