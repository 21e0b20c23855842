-- ===== src/Mutation/Idempotency/Responses.antt =====
-- What a stored response says of a webhook (`webhook_transition_response_matches` of
-- src/mutation/idempotency.rs).
use solodock.Base.{
  both_true, inr, inl, ◌≡◌, refl, Option, some, none, Bool, true, false, String, option_eq,
  Option-cases, ℕ, ==_iff, arith,
}
use solodock.Base.Text.{Text, lit, option_same_iff}
use solodock.Database.{Uuid}
use solodock.Mutation.Idempotency.Rows.{IdempotencyRecord, RecordStatus}
use solodock.Mutation.Idempotency.Gc.{WebhookMetadata}
use solodock.Mutation.Idempotency.Recovery.{
  Json, bool_eq, str_is, bool_is, has_status, is_succeeded, webhook_transition_response_matches,
  transition_proved,
}

bool_eq_sound : (a : Option Bool) (b : Bool) → option_eq bool_eq a (some b) ≡ true → a ≡ some b
bool_eq_sound none b h = absurd cc
bool_eq_sound (some true) true h = refl
bool_eq_sound (some true) false h = absurd cc
bool_eq_sound (some false) true h = absurd cc
bool_eq_sound (some false) false h = refl

has_status_sound : (n : ℕ) (status : Option ℕ) → has_status n status ≡ true → status ≡ some n
has_status_sound n none h = absurd cc
has_status_sound n (some m) h = ground (arith, ==_iff n m)

is_succeeded_sound :
    (status : RecordStatus) → is_succeeded status ≡ true → status ≡ RecordStatus.succeeded
is_succeeded_sound status h = ground arith

module _ {V : Type 0} (json : Json V) (display : Uuid → Text) where
  -- The field is there, and is a text.
  abbrev pub HasText : String → Text → V → Type 0
  HasText name text value =
      (field : V) × (json.get (lit name) value ≡ some field) × (json.as_str field ≡ some text)

  abbrev pub HasBool : String → Bool → V → Type 0
  HasBool name b value =
      (field : V) × (json.get (lit name) value ≡ some field) × (json.as_bool field ≡ some b)

  abbrev pub HasNull : String → V → Type 0
  HasNull name value =
      (field : V) × (json.get (lit name) value ≡ some field) × (json.is_null field ≡ true)

  -- The field `secret_revision` holds the secret's revision, or null without a secret.
  pub data HasSecret (value : V) : Option Uuid → Type 0 where
    present :
        (revision : Uuid)
        → HasText "secret_revision" (display revision) value
        → HasSecret value (some revision)
    absent : HasNull "secret_revision" value → HasSecret value none

  -- The value says what the metadata says.
  pub record Describes (metadata : WebhookMetadata) (value : V) : Type 0 where
    pub configured : HasBool "configured" metadata.enabled value
    pub revised : HasText "metadata_revision" (display metadata.metadata_revision) value
    pub secret : HasSecret value metadata.secret_revision

  -- The row is settled with a 200 whose body parses to what the metadata says.
  pub record Published (metadata : WebhookMetadata) (row : IdempotencyRecord) : Type 0 where
    pub status : row.status ≡ RecordStatus.succeeded
    pub response_status : row.response_status ≡ some 200
    pub body : Text
    pub response_body : row.response_body ≡ some body
    pub value : V
    pub parsed : json.from_str body ≡ some value
    pub described : Describes metadata value

  str_is_sound :
      (name : String) (text : Text) (value : V)
      → str_is json display name text value ≡ true
      → HasText name text value
  str_is_sound name text value h = elim (Option-cases (json.get (lit name) value)) [
    | inl e ↦ let h' = rw (str_is, e) at h in absurd cc
    | inr (field, e) ↦
        (field, e, (option_same_iff (json.as_str field) (some text)).0 (rw (str_is, e) at h))
  ]

  bool_is_sound :
      (name : String) (b : Bool) (value : V)
      → bool_is json display name b value ≡ true
      → HasBool name b value
  bool_is_sound name b value h = elim (Option-cases (json.get (lit name) value)) [
    | inl e ↦ let h' = rw (bool_is, e) at h in absurd cc
    | inr (field, e) ↦ (field, e, bool_eq_sound (json.as_bool field) b (rw (bool_is, e) at h))
  ]

  secret_sound :
      (secret : Option Uuid) (value : V)
      → elim secret [
        | some revision ↦ str_is json display "secret_revision" (display revision) value
        | none ↦ elim (json.get (lit "secret_revision") value) [
          | none ↦ false
          | some field ↦ json.is_null field
        ]
      ]
        ≡ true
      → HasSecret value secret
  secret_sound (some revision) value h =
      HasSecret.present revision (str_is_sound "secret_revision" (display revision) value h)
  secret_sound none value h = elim (Option-cases (json.get (lit "secret_revision") value)) [
    | inl e ↦ let h' = rw e at h in absurd cc
    | inr (field, e) ↦ HasSecret.absent (field, e, rw e at h)
  ]

  describes_sound :
      (body : Text) (metadata : WebhookMetadata)
      → webhook_transition_response_matches json display body metadata ≡ true
      → (value : V) × (json.from_str body ≡ some value) × Describes metadata value
  unfolding webhook_transition_response_matches
  describes_sound body metadata h = elim (Option-cases (json.from_str body)) [
    | inl e ↦ let h' = rw (webhook_transition_response_matches, e) at h in absurd cc
    | inr (value, e) ↦
        let (configured, rest) = both_true _ _ (rw (webhook_transition_response_matches, e) at h) in
        let (revised, secret) = both_true _ _ rest in
        (
          value,
          e,
          record {
            configured = bool_is_sound "configured" metadata.enabled value configured;
            revised =
                str_is_sound "metadata_revision" (display metadata.metadata_revision) value revised;
            secret = secret_sound metadata.secret_revision value secret;
          },
        )
  ]

  body_sound :
      (metadata : WebhookMetadata) (found : Option Text)
      → elim found [
        | none ↦ false
        | some body ↦ webhook_transition_response_matches json display body metadata
      ]
        ≡ true
      → (body : Text) × (found ≡ some body)
        × (value : V) × (json.from_str body ≡ some value)
        × Describes metadata value
  body_sound metadata none h = absurd cc
  body_sound metadata (some body) h =
      let (value, parsed, described) = describes_sound body metadata h in
      (body, refl, value, parsed, described)

  pub transition_proved-Published :
      (metadata : WebhookMetadata) (row : IdempotencyRecord)
      → transition_proved json display metadata row ≡ true
      → Published metadata row
  unfolding transition_proved
  transition_proved-Published metadata row h =
      let (status, rest) = both_true _ _ h in
      let (response_status, matched) = both_true (has_status 200 row.response_status) _ rest in
      let (body, response_body, value, parsed, described) =
        body_sound metadata row.response_body matched in
      record {
        status = is_succeeded_sound row.status status;
        response_status = has_status_sound 200 row.response_status response_status;
        body = body;
        response_body = response_body;
        value = value;
        parsed = parsed;
        described = described;
      }
