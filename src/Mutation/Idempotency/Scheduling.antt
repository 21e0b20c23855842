-- ===== src/Mutation/Idempotency/Scheduling.antt =====
-- `claim_deployment`: a claim that queues a deployment in the same transaction
-- (src/mutation/idempotency.rs, with ScheduledResolvedTarget of src/deploy/ledger.rs and ResolvedImage of
-- src/registry/client.rs). `queued_body` writes the JSON of the response, with the crate serde_json.
use solodock.Base.{String, ◌&&◌, Option, none, some, ◌==◌, if◌then◌else◌, Result, ok, err}
use solodock.Base.Table.{find_where, count_where}
use solodock.Base.Text.{Text, same}
use solodock.Database.{Uuid, Time, Deployment, DeploymentTrigger}
use solodock.Deploy.Ledger.{add_queued, violates_unique, new_deployment, is_poll}
use solodock.Mutation.Idempotency.Rows.{
  IdempotencyRecord, MutationStore, IdempotencyError, ClaimResult, RecordStatus, validate_key,
  in_slot, next_rowid, pending_record,
}
use solodock.Mutation.Idempotency.Operations.{
  insert_audit, insert_record, update_records, replay_of,
}

pub record ScheduledPlatform : Type 0 where
  pub os : String
  pub architecture : String
  pub variant : Option String

-- The fields of `ResolvedImage` that the statement binds.
pub record ResolvedImage : Type 0 where
  pub source_image_ref : String
  pub source_descriptor_digest : String
  pub manifest_digest : String
  pub index_digest : Option String
  pub platform : ScheduledPlatform
  pub local_image_id : String
  pub repository : String

pub record ScheduledResolvedTarget : Type 0 where
  pub image : ResolvedImage
  pub generation : String
  pub target_key : String

-- What the caller asks for.
pub record DeploymentRequest : Type 0 where
  pub app_id : Uuid
  pub trigger : DeploymentTrigger
  pub requested_revision : Uuid
  pub from_release_id : Option Uuid
  pub expected_pending_release_id : Option Uuid
  pub expected_actual_release_id : Option Uuid
  pub expected_actual_container_id : Option String
  pub rollback_target_release_id : Option Uuid
  pub rollback_of_deployment_id : Option Uuid
  pub scheduled : Option ScheduledResolvedTarget

abbrev pub actor_of : DeploymentTrigger → String
actor_of trigger = if is_poll trigger then "system" else "admin"

-- The columns `scheduled_…` and `poll_generation`.
unfoldable pub schedule : Option ScheduledResolvedTarget → Deployment → Deployment
schedule none row = row
schedule (some target) row = record row {
  scheduled_source_image_ref = some target.image.source_image_ref;
  scheduled_source_descriptor_digest = some target.image.source_descriptor_digest;
  scheduled_manifest_digest = some target.image.manifest_digest;
  scheduled_index_digest = target.image.index_digest;
  scheduled_platform_os = some target.image.platform.os;
  scheduled_platform_architecture = some target.image.platform.architecture;
  scheduled_platform_variant = target.image.platform.variant;
  scheduled_local_image_id = some target.image.local_image_id;
  scheduled_repository = some target.image.repository;
  scheduled_target_key = some target.target_key;
  poll_generation = some target.generation;
}

-- The row of `deployments` that the claim inserts.
unfoldable pub queued_row : Uuid → DeploymentRequest → Uuid → Time → Deployment
unfolding new_deployment schedule
queued_row id request request_id now =
    schedule request.scheduled
      (record (new_deployment id request.app_id request.trigger request.requested_revision
        request.from_release_id request.rollback_target_release_id request.rollback_of_deployment_id
        request_id now) {
          expected_pending_release_id = request.expected_pending_release_id;
          expected_actual_release_id = request.expected_actual_release_id;
          expected_actual_container_id = request.expected_actual_container_id;
        })

-- The last update of the transaction: the claim is answered when its deployment is queued.
unfoldable pub accept_record : Text → Time → IdempotencyRecord → IdempotencyRecord
accept_record body now row = record row {
  status = RecordStatus.succeeded;
  response_status = some 202;
  response_body = some body;
  updated_at = now;
}

-- What `claim_deployment` answers from a row that has the key already.
unfoldable pub deployment_row : Text → IdempotencyRecord → Result IdempotencyError ClaimResult
unfolding replay_of
deployment_row request_hmac row =
    if same row.request_hmac request_hmac
    then elim row.status [
      | RecordStatus.pending ↦ err IdempotencyError.in_progress
      | RecordStatus.interrupted ↦ err IdempotencyError.in_progress
      | _ ↦ replay_of row
    ]
    else err IdempotencyError.reused

module _ (queued_body : Uuid → Text) where
  -- The statements of a transaction that commits.
  unfoldable pub queue_deployment :
      String
      → Text
      → Text
      → Text
      → DeploymentRequest
      → Uuid
      → Uuid
      → Time
      → MutationStore
      → MutationStore
  unfolding pending_record next_rowid insert_record insert_audit accept_record in_slot add_queued
      queued_row
  queue_deployment actor route key_hmac request_hmac request request_id id now store =
      let inserted =
        insert_record
          (pending_record (next_rowid store.records) actor route key_hmac request_hmac id now)
          store in
      let queued = record inserted {
        ledger = add_queued (queued_row id request request_id now) store.ledger;
      } in
      update_records (λ row. in_slot actor route key_hmac row && row.operation_id == id)
        (accept_record (queued_body id) now)
        (insert_audit actor request_id route (some id) "attempt" now queued)

  unfoldable pub deployment_found :
      Option IdempotencyRecord
      → String
      → Text
      → Text
      → Text
      → DeploymentRequest
      → Uuid
      → Uuid
      → Time
      → MutationStore
      → MutationStore × Result IdempotencyError ClaimResult
  unfolding queue_deployment deployment_row violates_unique
  deployment_found none actor route key_hmac request_hmac request request_id id now store =
      if count_where (violates_unique id request.app_id) store.ledger.deployments == 0
      then (
        queue_deployment actor route key_hmac request_hmac request request_id id now store,
        ok (ClaimResult.fresh id),
      )
      else (store, err IdempotencyError.in_progress)
  deployment_found (some row) actor route key_hmac request_hmac request request_id id now store =
      (store, deployment_row request_hmac row)

  unfoldable pub claim_deployment :
      (Text → Text)
      → Text
      → Text
      → Text
      → Uuid
      → DeploymentRequest
      → Uuid
      → Time
      → MutationStore
      → MutationStore × Result IdempotencyError ClaimResult
  unfolding deployment_found in_slot validate_key
  claim_deployment keyed route raw_key request_hmac request_id request id now store =
      let actor = actor_of request.trigger in
      if validate_key raw_key
      then deployment_found (find_where (in_slot actor route (keyed raw_key)) store.records) actor
          route (keyed raw_key) request_hmac request request_id id now store
      else (store, err IdempotencyError.key_invalid)
