-- ===== src/Tests/Mutation.antt =====
-- IdempotencyService (src/mutation/idempotency.rs) on small tables.
use solodock.Base.{
  ◌+◌, ◌≤◌, Bool, true, false, none, some, List, [], ◌∷◌, ◌≡◌, refl, ◌⊎◌, arith, ok, err, All,
}
use solodock.Base.Table.{find_where}
use solodock.Base.Text.{same, Text, lit}
use solodock.Database.{Uuid, Time, empty_database, DeploymentTrigger}
use solodock.Mutation.Idempotency.{
  interrupt_pending, mark_effect_completed, is_settled, future_owner, future_owned,
  webhook_transition_response_matches, transition_proved, is_resumable, owns, webhook_route,
  published_decision, can_start, stale_decision, finish_record, next_rowid, insert_audit,
  insert_record, claim_found, claim_slot, MutationStore, IdempotencyRecord, IdempotencyError,
  ClaimResult, Call, claim, finish, run, step, mark_effect_started, collect, candidates,
  claim_deployment, DeploymentRequest, WebhookRecoveryApp, finalize_succeeded_webhook_revisions,
  Json, validate_key, in_slot, pending_record,
}
use solodock.Mutation.Idempotency.Slot.{view, slot_of, slot_run, history, decides, owner}
use solodock.Mutation.Idempotency.Answers.{run-claim, claim-finish, answer_of}
use solodock.Mutation.Idempotency.Grants.{grants_bounded, grants, interruptions, deletions}
use solodock.Mutation.Idempotency.Invariant.{IsIntact, run-IsIntact}
use solodock.Mutation.Idempotency.Markers.{mark_effect_started-refused}
use solodock.Mutation.Idempotency.Collection.{collect-keeps, Spared}
use solodock.Mutation.Idempotency.Queueing.{
  claim_deployment-atomic, claim_deployment-keeps, Queued, is_fresh,
}
use solodock.Mutation.Idempotency.Proofs.{
  finalize_succeeded_webhook_revisions_sound, Authorised, stale_of,
}
use solodock.Deploy.Ledger.Uniqueness.{IsUnique}

abbrev empty_store : MutationStore
empty_store = record {
  records = [];
  audits = [];
  cleanups = [];
  unregistrations = [];
  ledger = empty_database;
}

abbrev keyed_by : Text → Text
keyed_by key = 7 ∷ key

abbrev apps_route : Text
apps_route = lit "/api/v1/apps"

abbrev client_key : Text
client_key = lit "0123456789abcdef"

abbrev body : Text
body = lit "{}"

abbrev request : Text
request = 1 ∷ 2 ∷ []

abbrev wanted : DeploymentRequest
wanted = record {
  app_id = 1;
  trigger = DeploymentTrigger.manual;
  requested_revision = 3;
  from_release_id = none;
  expected_pending_release_id = none;
  expected_actual_release_id = none;
  expected_actual_container_id = none;
  rollback_target_release_id = none;
  rollback_of_deployment_id = none;
  scheduled = none;
}

-- A claim, a start of the effect, an interruption, a resumption and the end, the collection of the
-- row, and a deployment under the same key.
abbrev calls : List (Time × Call)
calls =
    (100, Call.claims apps_route client_key request 5 9)
    ∷ (101, Call.starts apps_route client_key none none)
    ∷ (102, Call.interrupts_all)
    ∷ (103, Call.claims apps_route client_key request 6 10)
    ∷ (104, Call.completes apps_route client_key)
    ∷ (105, Call.finishes apps_route client_key 201 body none 6)
    ∷ (300, Call.collects 200 ((1, 9) ∷ []))
    ∷ (301, Call.queues apps_route client_key request 7 wanted 12 body)
    ∷ []

empty-IsIntact : IsIntact []
empty-IsIntact = record {
  one_row = λ actor route kh. omega arith;
  one_rowid = λ n. omega arith;
  answered = tt;
}

empty-IsUnique : IsUnique []
empty-IsUnique = record { one_row = λ id. omega arith; one_open = λ app. omega arith }

run-claim_example :
    (claim keyed_by apps_route client_key request 8 11 106 (run keyed_by empty_store calls)).1
    ≡ answer_of client_key
        (record { id = 11; request = request })
        (slot_run keyed_by apps_route
          (keyed_by client_key)
          (slot_of apps_route (keyed_by client_key) empty_store)
          (history keyed_by apps_route (keyed_by client_key) empty_store calls))
run-claim_example =
    run-claim keyed_by apps_route client_key request 8 11 106 empty_store calls empty-IsIntact

grants_bounded_example :
    grants keyed_by apps_route (keyed_by client_key) empty_store calls
    ≤ 1
      + (interruptions keyed_by apps_route (keyed_by client_key) calls
          + deletions keyed_by apps_route (keyed_by client_key) empty_store calls)
grants_bounded_example =
    grants_bounded keyed_by apps_route (keyed_by client_key) empty_store calls empty-IsIntact

-- Both claims of the key and the deployment are granted, after one interruption and one deletion.
granted_twice :
    (grants keyed_by apps_route (keyed_by client_key) empty_store calls ≡ 3)
    × (interruptions keyed_by apps_route (keyed_by client_key) calls ≡ 1)
    × (deletions keyed_by apps_route (keyed_by client_key) empty_store calls ≡ 1)
unfolding decides step run same claim interrupt_pending mark_effect_started claim_deployment finish
    mark_effect_completed is_settled
granted_twice = (refl, refl, refl)

run-IsIntact_example : IsIntact (run keyed_by empty_store calls).records
run-IsIntact_example = run-IsIntact keyed_by empty_store calls empty-IsIntact

abbrev claimed : MutationStore
unfolding claim claim_slot claim_found insert_record insert_audit pending_record next_rowid
    validate_key
claimed = (claim keyed_by apps_route client_key request 5 9 100 empty_store).0

claimed-IsIntact : IsIntact claimed.records
unfolding claimed run step
claimed-IsIntact =
    run-IsIntact keyed_by empty_store ((100, Call.claims apps_route client_key request 5 9) ∷ [])
      empty-IsIntact

claimed-owner :
    owner (slot_of apps_route (keyed_by client_key) claimed)
    ≡ some (record { id = 9; request = request })
unfolding claimed slot_of view in_slot same
claimed-owner = refl

client_key-valid : validate_key client_key ≡ true
unfolding validate_key
client_key-valid = refl

claim-finish_example :
    (claim keyed_by apps_route client_key request 6 11 106
      (finish keyed_by apps_route client_key 201 body none 5 105 claimed)).1
    ≡ ok (ClaimResult.replay 9 201 body)
claim-finish_example =
    claim-finish keyed_by apps_route client_key (record { id = 9; request = request }) 201 body none
      5 6 11 105 106 claimed claimed-IsIntact client_key-valid claimed-owner (omega arith)

abbrev resumed_calls : List (Time × Call)
resumed_calls =
    (102, Call.interrupts_all)
    ∷ (103, Call.claims apps_route client_key request 6 10)
    ∷ (104, Call.collects 103 ((1, 9) ∷ []))
    ∷ []

resumed-undeleted :
    deletions keyed_by apps_route
      (keyed_by client_key)
      (mark_effect_started keyed_by apps_route client_key none none 101 claimed).0
      resumed_calls
    ≡ 0
unfolding mark_effect_started claimed decides step interrupt_pending same is_settled
resumed-undeleted = refl

claimed-starts :
    (mark_effect_started keyed_by apps_route client_key none none 101 claimed).1 ≡ ok tt
unfolding mark_effect_started claimed in_slot same can_start
claimed-starts = refl

mark_effect_started-refused_example :
    (mark_effect_started keyed_by apps_route client_key none none 104 (
      run keyed_by
        (mark_effect_started keyed_by apps_route client_key none none 101 claimed).0
        resumed_calls)).1
    ≡ err IdempotencyError.record_invalid
mark_effect_started-refused_example =
    mark_effect_started-refused keyed_by apps_route client_key none none none none 101 104 claimed
      resumed_calls claimed-IsIntact claimed-starts resumed-undeleted

abbrev settled_row : IdempotencyRecord
unfolding finish_record pending_record
settled_row =
    finish_record 201 body none 105
      (pending_record 1 "admin" apps_route (keyed_by client_key) request 9 100)

abbrev settled_store : MutationStore
settled_store = record empty_store { records = settled_row ∷ [] }

abbrev own_key : IdempotencyRecord → Bool
own_key = in_slot "admin" apps_route (keyed_by client_key)

own_key-found : find_where own_key settled_store.records ≡ some settled_row
unfolding in_slot same settled_row
own_key-found = refl

settled_row-Spared : Spared (9 ∷ []) 200 settled_store settled_row
unfolding settled_row
settled_row-Spared = Spared.owned refl

collect-keeps_example :
    find_where own_key (collect 200 (candidates (9 ∷ []) 200 settled_store) settled_store).0.records
    ≡ some settled_row
collect-keeps_example =
    collect-keeps (9 ∷ []) 200 settled_store settled_store own_key settled_row own_key-found
      settled_row-Spared

abbrev body_of : Uuid → Text
body_of id = body

claim_deployment-atomic_example :
    let (next, answer) =
      claim_deployment body_of keyed_by apps_route client_key request 5 wanted 9 100 empty_store in
    ((next ≡ empty_store) × (is_fresh answer ≡ false))
    ⊎ ((answer ≡ ok (ClaimResult.fresh 9))
        × Queued body_of "admin" apps_route (keyed_by client_key) wanted 5 9 100 next)
claim_deployment-atomic_example =
    claim_deployment-atomic body_of keyed_by apps_route client_key request wanted 5 9 100
      empty_store

claim_deployment-keeps_example :
    let next =
      (claim_deployment body_of keyed_by apps_route client_key request 5 wanted 9 100
        empty_store).0 in
    IsIntact next.records × IsUnique next.ledger.deployments
claim_deployment-keeps_example =
    claim_deployment-keeps body_of keyed_by apps_route client_key request wanted 5 9 100 empty_store
      empty-IsIntact empty-IsUnique

-- A reader that finds the expected text and Boolean everywhere.
abbrev agreeing : Json Text
agreeing = record {
  from_str = λ text. some text;
  get = λ name value. some value;
  as_str = λ value. some [];
  as_bool = λ value. some true;
  is_null = λ value. true;
}

abbrev no_text : Uuid → Text
no_text id = []

abbrev rotated : WebhookRecoveryApp
rotated = record {
  app_id = 1;
  metadata = some (record {
    enabled = true;
    metadata_revision = 20;
    secret_revision = some 21;
    last_operation_id = 9;
  });
  revisions =
      record { revision_id = 19; operation_id = 8; current = false }
      ∷ record { revision_id = 21; operation_id = 9; current = true }
      ∷ [];
  operation_temps = [];
}

abbrev rotation_store : MutationStore
unfolding finish_record pending_record
rotation_store = record empty_store {
  records =
      finish_record 200 body none 105 (
        pending_record 4 "admin" (webhook_route agreeing no_text 1) (keyed_by client_key) request 9
          100)
      ∷ [];
}

-- The stale revision of the rotated webhook is cleaned up.
rotated-cleaned :
    finalize_succeeded_webhook_revisions agreeing no_text (rotated ∷ []) rotation_store
    ≡ (1 ∷ [], ok tt)
unfolding finalize_succeeded_webhook_revisions rotation_store stale_decision published_decision owns
    same is_resumable transition_proved webhook_transition_response_matches future_owned
    future_owner
rotated-cleaned = refl

finalize_succeeded_webhook_revisions_sound_example :
    All
      (λ id.
        (app : WebhookRecoveryApp) × (app.app_id ≡ id)
        × Authorised agreeing no_text rotation_store app (stale_of agreeing no_text app))
      (finalize_succeeded_webhook_revisions agreeing no_text (rotated ∷ []) rotation_store).0
finalize_succeeded_webhook_revisions_sound_example =
    finalize_succeeded_webhook_revisions_sound agreeing no_text (rotated ∷ []) rotation_store
