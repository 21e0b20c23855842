-- ===== src/Mutation/Idempotency/Recovery.antt =====
-- The recovery of files by the operations that own them (src/mutation/idempotency.rs). `display` prints a
-- UUID (crate uuid), and `Json` reads a value (crate serde_json).
use solodock.Base.{
  ℕ, String, Bool, true, false, ◌&&◌, ◌||◌, not, ◌==◌, ltb, text_eq, if◌then◌else◌, Option, none,
  some, List, [], ◌∷◌, ◌++◌, any, option_eq, Result, ok, err, ◌>>=◌,
}
use solodock.Base.Table.{find_where, select_where}
use solodock.Base.Text.{Text, same, lit}
use solodock.Database.{Uuid}
use solodock.Mutation.Idempotency.Rows.{
  IdempotencyRecord, IdempotencyError, MutationStore, RecordStatus,
}
use solodock.Mutation.Idempotency.Gc.{WebhookMetadata, WebhookRecoveryRevision, WebhookRecoveryApp}

pub record Json (V : Type 0) : Type 0 where
  pub from_str : Text → Option V
  pub get : Text → V → Option V
  pub as_str : V → Option Text
  pub as_bool : V → Option Bool
  pub is_null : V → Bool

abbrev pub bool_eq : Bool → Bool → Bool
bool_eq true b = b
bool_eq false b = not b

-- `status IN pending, interrupted`: the operation can still be resumed.
unfoldable pub is_resumable : RecordStatus → Bool
is_resumable RecordStatus.pending = true
is_resumable RecordStatus.interrupted = true
is_resumable _ = false

abbrev pub is_succeeded : RecordStatus → Bool
is_succeeded RecordStatus.succeeded = true
is_succeeded _ = false

-- `WHERE actor='admin' AND route=? AND operation_id=?`.
unfoldable pub owns : Text → Uuid → IdempotencyRecord → Bool
owns route id row = text_eq row.actor "admin" && (same row.route route && row.operation_id == id)

abbrev pub owner_of : Text → Uuid → MutationStore → Option IdempotencyRecord
unfolding owns
owner_of route id store = find_where (owns route id) store.records

abbrev pub has_status : ℕ → Option ℕ → Bool
has_status n = option_eq ◌==◌ (some n)

-- A loop that stops at the first error, and acts on the elements with the answer true.
abbrev pub act_if {ℓ} :
    {A : Type ℓ}
    → Result IdempotencyError Bool
    → A
    → List A × Result IdempotencyError (Unit {0})
    → List A × Result IdempotencyError (Unit {0})
act_if (err e) x rest = ([], err e)
act_if (ok false) x rest = rest
act_if (ok true) x (xs, end) = (x ∷ xs, end)

module _ {V : Type 0} (json : Json V) (display : Uuid → Text) where
  -- `value.get(name).and_then(as_str) == Some(text)`, and with `as_bool`.
  abbrev pub str_is : String → Text → V → Bool
  str_is name text value = elim (json.get (lit name) value) [
    | none ↦ false
    | some field ↦ option_eq same (json.as_str field) (some text)
  ]

  abbrev pub bool_is : String → Bool → V → Bool
  bool_is name b value = elim (json.get (lit name) value) [
    | none ↦ false
    | some field ↦ option_eq bool_eq (json.as_bool field) (some b)
  ]

  -- The response parses to a value that passes the test.
  abbrev pub body_is : (V → Bool) → Option Text → Bool
  body_is test none = false
  body_is test (some body) = elim (json.from_str body) [ none ↦ false | some value ↦ test value ]

  unfoldable pub unregistered : Uuid → IdempotencyRecord → Bool
  unregistered app_id row =
      is_succeeded row.status
      && (has_status 200 row.response_status
          && body_is
              (λ value. str_is "app_id" (display app_id) value && bool_is "unregistered" true value)
              row.response_body)

  unfoldable pub credential_deleted : Uuid → IdempotencyRecord → Bool
  credential_deleted id row =
      is_succeeded row.status
      && (has_status 200 row.response_status
          && body_is (λ value. str_is "id" (display id) value && bool_is "deleted" true value)
              row.response_body)

  abbrev pub app_route : Uuid → Text
  app_route app_id = lit "/api/v1/apps/" ++ display app_id

  abbrev pub credential_route : Uuid → Text
  credential_route id = lit "/api/v1/registry-credentials/" ++ display id

  abbrev pub webhook_route : Uuid → Text
  webhook_route app_id = lit "/api/v1/apps/" ++ (display app_id ++ lit "/webhook")

  -- Whether the operation of a tombstone is proved to have succeeded; one that can be resumed is
  -- passed over.
  unfoldable pub proved :
      (IdempotencyRecord → Bool) → Option IdempotencyRecord → Result IdempotencyError Bool
  unfolding is_resumable
  proved test none = err IdempotencyError.record_invalid
  proved test (some row) =
      if is_resumable row.status
      then ok false
      else if test row
      then ok true
      else err IdempotencyError.record_invalid

  unfoldable pub validate_app_tombstones :
      List (Uuid × Uuid) → MutationStore → Result IdempotencyError (List (Uuid × Uuid))
  unfolding proved unregistered owns
  validate_app_tombstones [] store = ok []
  validate_app_tombstones ((app_id, operation_id) ∷ rest) store = do
    done ← proved (unregistered app_id) (owner_of (app_route app_id) operation_id store)
    others ← validate_app_tombstones rest store
    ok (if done then (app_id, operation_id) ∷ others else others)

  -- The tombstones that the loop finalizes, and how it ends.
  unfoldable pub finalize_succeeded_credential_tombstones :
      List (Uuid × Uuid) → MutationStore → List (Uuid × Uuid) × Result IdempotencyError (Unit {0})
  unfolding proved credential_deleted owns
  finalize_succeeded_credential_tombstones [] store = ([], ok tt)
  finalize_succeeded_credential_tombstones ((credential_id, operation_id) ∷ rest) store =
      act_if
        (proved (credential_deleted credential_id)
          (owner_of (credential_route credential_id) operation_id store))
        (credential_id, operation_id) (finalize_succeeded_credential_tombstones rest store)

  unfoldable pub webhook_transition_response_matches : Text → WebhookMetadata → Bool
  webhook_transition_response_matches body metadata = elim (json.from_str body) [
    | none ↦ false
    | some value ↦
        bool_is "configured" metadata.enabled value
        && (str_is "metadata_revision" (display metadata.metadata_revision) value
            && elim metadata.secret_revision [
              | some revision ↦ str_is "secret_revision" (display revision) value
              | none ↦ elim (json.get (lit "secret_revision") value) [
                | none ↦ false
                | some field ↦ json.is_null field
              ]
            ])
  ]

  unfoldable pub transition_proved : WebhookMetadata → IdempotencyRecord → Bool
  unfolding webhook_transition_response_matches
  transition_proved metadata row =
      is_succeeded row.status
      && (has_status 200 row.response_status && elim row.response_body [
        | none ↦ false
        | some body ↦ webhook_transition_response_matches body metadata
      ])

  -- The operation of a revision can still be resumed.
  unfoldable pub revision_resumable : Text → MutationStore → WebhookRecoveryRevision → Bool
  unfolding owns is_resumable
  revision_resumable route store revision = elim (owner_of route revision.operation_id store) [
    | none ↦ false
    | some row ↦ is_resumable row.status
  ]

  -- What the operation of a stale revision says beside a transition of the given rowid: nothing, or that
  -- it came later and owns the revision.
  unfoldable pub future_owner : ℕ → Option IdempotencyRecord → Result IdempotencyError Bool
  unfolding is_resumable
  future_owner transition none = ok false
  future_owner transition (some row) =
      if ltb row.rowid transition
      then ok false
      else if row.rowid == transition
      then err IdempotencyError.record_invalid
      else if is_resumable row.status
      then ok true
      else err IdempotencyError.record_invalid

  unfoldable pub future_owned :
      Text → ℕ → MutationStore → List WebhookRecoveryRevision → Result IdempotencyError Bool
  unfolding future_owner owns
  future_owned route transition store [] = ok false
  future_owned route transition store (revision ∷ rest) = do
    owned ← future_owner transition (owner_of route revision.operation_id store)
    others ← future_owned route transition store rest
    ok (owned || others)

  -- Whether the stale revisions of an application are cleaned up.
  unfoldable pub published_decision :
      Text
      → MutationStore
      → WebhookMetadata
      → List WebhookRecoveryRevision
      → Option IdempotencyRecord
      → Result IdempotencyError Bool
  unfolding revision_resumable transition_proved future_owned is_resumable
  published_decision route store metadata stale none =
      if any (revision_resumable route store) stale
      then ok false
      else err IdempotencyError.record_invalid
  published_decision route store metadata stale (some row) =
      if is_resumable row.status
      then ok false
      else if transition_proved metadata row
      then future_owned route row.rowid store stale >>= (λ future. ok (not future))
      else err IdempotencyError.record_invalid

  abbrev pub all_resumable : Text → MutationStore → List WebhookRecoveryRevision → Bool
  unfolding revision_resumable
  all_resumable route store [] = true
  all_resumable route store (revision ∷ rest) =
      revision_resumable route store revision && all_resumable route store rest

  unfoldable pub stale_decision :
      MutationStore
      → WebhookRecoveryApp
      → List WebhookRecoveryRevision
      → Result IdempotencyError Bool
  unfolding published_decision owns revision_resumable
  stale_decision store app [] = ok false
  stale_decision store app (revision ∷ rest) =
      let route = webhook_route app.app_id in
      let stale = revision ∷ rest in
      elim app.metadata [
        | some metadata ↦
            published_decision route store metadata stale
              (owner_of route metadata.last_operation_id store)
        | none ↦
            if all_resumable route store stale
            then ok false
            else err IdempotencyError.record_invalid
      ]

  -- The applications whose stale revisions the loop cleans up, and how it ends.
  unfoldable pub finalize_succeeded_webhook_revisions :
      List WebhookRecoveryApp → MutationStore → List Uuid × Result IdempotencyError (Unit {0})
  unfolding stale_decision
  finalize_succeeded_webhook_revisions [] store = ([], ok tt)
  finalize_succeeded_webhook_revisions (app ∷ apps) store =
      act_if
        (stale_decision store app (select_where (λ revision. not revision.current) app.revisions))
        app.app_id (finalize_succeeded_webhook_revisions apps store)

  -- The temporary directories that the loop discards.
  unfoldable pub is_discardable : Option IdempotencyRecord → Bool
  is_discardable none = false
  is_discardable (some row) = elim row.status [ RecordStatus.pending ↦ false | _ ↦ true ]

  unfoldable pub discard_temps :
      Uuid → List Uuid → MutationStore → List (Uuid × Uuid) × Result IdempotencyError (Unit {0})
  unfolding is_discardable owns
  discard_temps app_id [] store = ([], ok tt)
  discard_temps app_id (operation_id ∷ rest) store =
      let (discarded, end) = discard_temps app_id rest store in
      if is_discardable (owner_of (webhook_route app_id) operation_id store)
      then ((app_id, operation_id) ∷ discarded, end)
      else ([], err IdempotencyError.record_invalid)

  unfoldable pub cleanup_webhook_operation_temps :
      List WebhookRecoveryApp
      → MutationStore
      → List (Uuid × Uuid) × Result IdempotencyError (Unit {0})
  unfolding discard_temps
  cleanup_webhook_operation_temps [] store = ([], ok tt)
  cleanup_webhook_operation_temps (app ∷ apps) store =
      let (discarded, end) = discard_temps app.app_id app.operation_temps store in
      let (others, last) = cleanup_webhook_operation_temps apps store in
      elim end [ err e ↦ (discarded, err e) | ok _ ↦ (discarded ++ others, last) ]
