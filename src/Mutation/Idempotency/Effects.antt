-- ===== src/Mutation/Idempotency/Effects.antt =====
-- The effect marker of an operation: what it is about to do to Docker (src/mutation/idempotency.rs).
use solodock.Base.{
  Bool, true, false, ◌&&◌, Option, none, some, ◌==◌, if◌then◌else◌, Result, ok, err, is_some, not,
}
use solodock.Base.Table.{find_where, count_where}
use solodock.Base.Text.{Text, same}
use solodock.Database.{Time}
use solodock.Mutation.Idempotency.Rows.{
  IdempotencyRecord, MutationStore, IdempotencyError, MarkerPhase, EffectMarker, in_slot,
  is_pending,
}
use solodock.Mutation.Idempotency.Operations.{update_records}

abbrev pub has_started : Option MarkerPhase → Bool
has_started (some MarkerPhase.effect_started) = true
has_started _ = false

-- The rows that each of the three updates selects, among those of the key, and the columns it sets.
unfoldable pub can_start : IdempotencyRecord → Bool
can_start row = is_pending row && not (is_some row.effect_phase)

unfoldable pub can_observe : Text → IdempotencyRecord → Bool
can_observe container row =
    is_pending row
    && (has_started row.effect_phase
        && (not (is_some row.pre_container_id)
            && elim row.post_container_id [ none ↦ true | some post ↦ same post container ]))

unfoldable pub can_complete : IdempotencyRecord → Bool
can_complete row = is_pending row && has_started row.effect_phase

unfoldable pub start_marker :
    Option Text → Option Text → Time → IdempotencyRecord → IdempotencyRecord
start_marker container started_at now row = record row {
  effect_phase = some MarkerPhase.effect_started;
  pre_container_id = container;
  pre_started_at = started_at;
  updated_at = now;
}

unfoldable pub observe_marker : Text → Time → IdempotencyRecord → IdempotencyRecord
observe_marker container now row = record row {
  post_container_id = some container;
  updated_at = now;
}

unfoldable pub complete_marker : Time → IdempotencyRecord → IdempotencyRecord
complete_marker now row = record row {
  effect_phase = some MarkerPhase.effect_completed;
  updated_at = now;
}

-- An update that has to change exactly one row. Its statement is committed even when it does not, but
-- it changes nothing then: the primary key selects one row at most.
abbrev pub update_one :
    (IdempotencyRecord → Bool)
    → (IdempotencyRecord → IdempotencyRecord)
    → MutationStore
    → MutationStore × Result IdempotencyError (Unit {0})
update_one p f store = (
  update_records p f store,
  (if count_where p store.records == 1 then ok tt else err IdempotencyError.record_invalid),
)

-- `EffectMarker` of a row, when its phase is not NULL.
unfoldable pub marker_of : IdempotencyRecord → Option EffectMarker
marker_of row = elim row.effect_phase [
  | none ↦ none
  | some phase ↦ some (record {
    phase = phase;
    pre_container_id = row.pre_container_id;
    pre_started_at = row.pre_started_at;
    post_container_id = row.post_container_id;
  })
]

module _ (keyed : Text → Text) where
  unfoldable pub effect_marker : Text → Text → MutationStore → Option EffectMarker
  unfolding in_slot marker_of
  effect_marker route raw_key store =
      elim (find_where (in_slot "admin" route (keyed raw_key)) store.records) [
        | none ↦ none
        | some row ↦ marker_of row
      ]

  unfoldable pub mark_effect_started :
      Text
      → Text
      → Option Text
      → Option Text
      → Time
      → MutationStore
      → MutationStore × Result IdempotencyError (Unit {0})
  unfolding in_slot can_start start_marker
  mark_effect_started route raw_key container started_at now store =
      update_one (λ row. in_slot "admin" route (keyed raw_key) row && can_start row)
        (start_marker container started_at now) store

  unfoldable pub mark_effect_observed :
      Text → Text → Text → Time → MutationStore → MutationStore × Result IdempotencyError (Unit {0})
  unfolding in_slot can_observe observe_marker
  mark_effect_observed route raw_key container now store =
      update_one (λ row. in_slot "admin" route (keyed raw_key) row && can_observe container row)
        (observe_marker container now) store

  unfoldable pub mark_effect_completed :
      Text → Text → Time → MutationStore → MutationStore × Result IdempotencyError (Unit {0})
  unfolding in_slot can_complete complete_marker
  mark_effect_completed route raw_key now store =
      update_one (λ row. in_slot "admin" route (keyed raw_key) row && can_complete row)
        (complete_marker now) store
