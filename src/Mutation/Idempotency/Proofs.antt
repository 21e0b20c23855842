-- ===== src/Mutation/Idempotency/Proofs.antt =====
-- Files are only removed on the proof of a finished operation (src/mutation/idempotency.rs).
use solodock.Base.{
  ltb, ◌<◌, ◌==◌, any, ◌>>=◌, ℕ, Bool, true, false, ◌||◌, not, Option, none, some, List, [], ◌∷◌,
  ◌≡◌, refl, inl, inr, arith, Bool-cases, Option-cases, All, Result, ok, err,
}
use solodock.Base.Table.{select_where}
use solodock.Base.Text.{Text}
use solodock.Database.{Uuid}
use solodock.Mutation.Idempotency.Rows.{IdempotencyRecord, MutationStore, IdempotencyError}
use solodock.Mutation.Idempotency.Gc.{WebhookMetadata, WebhookRecoveryRevision, WebhookRecoveryApp}
use solodock.Mutation.Idempotency.Responses.{Published, transition_proved-Published}
use solodock.Mutation.Idempotency.Recovery.{
  revision_resumable, all_resumable, act_if, Json, owner_of, proved, credential_deleted,
  credential_route, webhook_route, finalize_succeeded_credential_tombstones, transition_proved,
  future_owner, future_owned, published_decision, stale_decision,
  finalize_succeeded_webhook_revisions, is_resumable,
}

act_if-All {ℓ κ} :
    {A : Type ℓ} (P : A → Type κ) (answer : Result IdempotencyError Bool) (x : A)
    (rest : List A × Result IdempotencyError (Unit {0}))
    → (answer ≡ ok true → P x)
    → All P rest.0
    → All P (act_if answer x rest).0
act_if-All P (err e) x rest h hs = tt
act_if-All P (ok false) x rest h hs = hs
act_if-All P (ok true) x (xs, end) h hs = (h refl, hs)

neither :
    (a b : Result IdempotencyError Bool)
    → (a >>= (λ x. b >>= (λ y. ok (x || y)))) ≡ ok false
    → (a ≡ ok false) × (b ≡ ok false)
neither (err e) b h = absurd cc
neither (ok x) (err e) h = absurd cc
neither (ok x) (ok y) h = ground arith

negated : (a : Result IdempotencyError Bool) → (a >>= (λ x. ok (not x))) ≡ ok true → a ≡ ok false
negated (err e) h = absurd cc
negated (ok x) h = ground arith

-- The operation of a stale revision came before the transition of the given rowid: it owns no row of the
-- route, or a row with a smaller rowid.
pub data IsPast (route : Text) (transition : ℕ) (store : MutationStore)
    (revision : WebhookRecoveryRevision) : Type 0 where
  unowned :
      owner_of route revision.operation_id store ≡ none → IsPast route transition store revision
  earlier :
      (row : IdempotencyRecord)
      → owner_of route revision.operation_id store ≡ some row
      → row.rowid < transition
      → IsPast route transition store revision

module _ {V : Type 0} (json : Json V) (display : Uuid → Text) where
  proved_sound :
      (test : IdempotencyRecord → Bool) (found : Option IdempotencyRecord)
      → proved json display test found ≡ ok true
      → (row : IdempotencyRecord) × (found ≡ some row) × (test row ≡ true)
  unfolding proved
  proved_sound test none h = absurd cc
  proved_sound test (some row) h = (row, refl, ground arith)

  -- The deletion of the credential is answered in the table.
  abbrev pub IsDeleted : MutationStore → Uuid × Uuid → Type 0
  IsDeleted store (credential_id, operation_id) =
      (row : IdempotencyRecord) × (owner_of (credential_route json display credential_id)
          operation_id store
        ≡ some row)
      × (credential_deleted json display credential_id row ≡ true)

  -- A credential's tombstone is finalized only when the row of its operation says that the deletion
  -- succeeded, with the response for that credential.
  pub finalize_succeeded_credential_tombstones_sound :
      (tombstones : List (Uuid × Uuid)) (store : MutationStore)
      → All
          (IsDeleted store)
          (finalize_succeeded_credential_tombstones json display tombstones store).0
  unfolding finalize_succeeded_credential_tombstones
  finalize_succeeded_credential_tombstones_sound [] store = tt
  finalize_succeeded_credential_tombstones_sound ((credential_id, operation_id) ∷ rest) store =
      act_if-All (IsDeleted store) _ (credential_id, operation_id) _
        (λ h. proved_sound (credential_deleted json display credential_id) _ h)
        (finalize_succeeded_credential_tombstones_sound rest store)

  before_transition :
      (route : Text) (transition : ℕ) (store : MutationStore) (revision : WebhookRecoveryRevision)
      → future_owner json display transition (owner_of route revision.operation_id store) ≡ ok false
      → IsPast route transition store revision
  unfolding future_owner
  before_transition route transition store revision h =
      elim (Option-cases (owner_of route revision.operation_id store)) [
        | inl e ↦ IsPast.unowned e
        | inr (row, e) ↦ elim (Bool-cases (ltb row.rowid transition)) [
          | inl before ↦ IsPast.earlier row e (ground (arith, before))
          | inr after ↦ elim (Bool-cases (row.rowid == transition)) [
            | inl same ↦ let h' = rw (e, after, same) at h in absurd cc
            | inr later ↦ elim (Bool-cases (is_resumable row.status)) [
              | inl going ↦ let h' = rw (e, after, later, going) at h in absurd cc
              | inr closed ↦ let h' = rw (e, after, later, closed) at h in absurd cc
            ]
          ]
        ]
      ]

  future_owned_sound :
      (route : Text) (transition : ℕ) (store : MutationStore) (stale : List WebhookRecoveryRevision)
      → future_owned json display route transition store stale ≡ ok false
      → All (IsPast route transition store) stale
  unfolding future_owned
  future_owned_sound route transition store [] h = tt
  future_owned_sound route transition store (revision ∷ rest) h =
      let (now, later) = neither _ _ h in
      (
        before_transition route transition store revision now,
        future_owned_sound route transition store rest later,
      )

  abbrev pub stale_of : WebhookRecoveryApp → List WebhookRecoveryRevision
  stale_of app = select_where (λ revision. not revision.current) app.revisions

  -- What authorises the clean-up of an application's stale revisions.
  pub record Authorised (store : MutationStore) (app : WebhookRecoveryApp)
      (stale : List WebhookRecoveryRevision) : Type 0 where
    pub metadata : WebhookMetadata
    pub current : app.metadata ≡ some metadata
    pub row : IdempotencyRecord
    pub found :
        owner_of (webhook_route json display app.app_id) metadata.last_operation_id store ≡ some row
    pub published : Published json display metadata row
    pub past : All (IsPast (webhook_route json display app.app_id) row.rowid store) stale

  published_decision_sound :
      (route : Text) (store : MutationStore) (metadata : WebhookMetadata)
      (stale : List WebhookRecoveryRevision) (found : Option IdempotencyRecord)
      → published_decision json display route store metadata stale found ≡ ok true
      → (row : IdempotencyRecord) × (found ≡ some row)
        × (transition_proved json display metadata row ≡ true)
        × All (IsPast route row.rowid store) stale
  unfolding published_decision
  published_decision_sound route store metadata stale none h =
      elim (Bool-cases (any (revision_resumable json display route store) stale)) [
        | inl e ↦ let h' = rw e at h in absurd cc
        | inr e ↦ let h' = rw e at h in absurd cc
      ]
  published_decision_sound route store metadata stale (some row) h =
      elim (Bool-cases (is_resumable row.status)) [
        | inl e ↦ let h' = rw (e) at h in absurd cc
        | inr e ↦ elim (Bool-cases (transition_proved json display metadata row)) [
          | inr bad ↦ let h' = rw (e, bad) at h in absurd cc
          | inl good ↦
              let h' = rw (e, good) at h in
              (row, refl, good, future_owned_sound route row.rowid store stale (negated _ h'))
        ]
      ]

  stale_decision_sound :
      (store : MutationStore) (app : WebhookRecoveryApp) (stale : List WebhookRecoveryRevision)
      → stale_decision json display store app stale ≡ ok true
      → Authorised store app stale
  unfolding stale_decision
  stale_decision_sound store app [] h = absurd cc
  stale_decision_sound store app (revision ∷ rest) h = elim (Option-cases app.metadata) [
    | inl absent ↦
        elim (Bool-cases (
          all_resumable json display (webhook_route json display app.app_id) store
            (revision ∷ rest))) [
              | inl e ↦ let h' = rw (absent, e) at h in absurd cc
              | inr e ↦ let h' = rw (absent, e) at h in absurd cc
            ]
    | inr (metadata, current) ↦
        let route = webhook_route json display app.app_id in
        let (row, found, succeeded, past) =
          published_decision_sound route store metadata (revision ∷ rest)
            (owner_of route metadata.last_operation_id store) (rw current at h) in
        record {
          metadata = metadata;
          current = current;
          row = row;
          found = found;
          published = transition_proved-Published json display metadata row succeeded;
          past = past;
        }
  ]

  -- The stale revisions of an application are cleaned up only when the operation that published the current
  -- metadata is settled as succeeded with a 200, whose body parses to the metadata's enabled flag, revision and
  -- secret revision (null without one), and every stale revision's operation has no row of the route or a row
  -- with a smaller rowid than that one.
  pub finalize_succeeded_webhook_revisions_sound :
      (apps : List WebhookRecoveryApp) (store : MutationStore)
      → All
          (λ id.
            (app : WebhookRecoveryApp) × (app.app_id ≡ id) × Authorised store app (stale_of app))
          (finalize_succeeded_webhook_revisions json display apps store).0
  unfolding finalize_succeeded_webhook_revisions
  finalize_succeeded_webhook_revisions_sound [] store = tt
  finalize_succeeded_webhook_revisions_sound (app ∷ apps) store =
      act_if-All _ _ app.app_id _
        (λ h. (app, refl, stale_decision_sound store app (stale_of app) h))
        (finalize_succeeded_webhook_revisions_sound apps store)
