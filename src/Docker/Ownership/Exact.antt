-- ===== src/Docker/Ownership/Exact.antt =====
-- Which labels make a container one of an application (src/docker/ownership.rs).
use solodock.Base.{
  ◌&&◌, Bool, ==_refl, Option, ◌≡◌, refl, sym, ◌∙◌, ap, ◌↔◌, Bool-cases, Option-cases, inl, inr,
  true, some, none, arith, ==_iff,
}
use solodock.Base.Text.{same, Text, lit, same_iff, option_same_iff}
use solodock.Docker.Ownership.{
  option_is, validate_identity, oneoff_label, service_label, project_label, schema_label,
  release_id_label, managed_label, app_id_label, has_project_labels, get, Uuid,
  validate_syntactic_identity, label_uuid, label_is, canonical_uuid, Labels, UuidCrate,
  OwnedIdentity, AppCatalogEntry,
}

-- The labels that `app` and one of its releases carry.
pub record Carries (uuid : UuidCrate) (labels : Labels) (app : AppCatalogEntry) (release : Uuid)
    : Type 0 where
  pub managed : get managed_label labels ≡ some (lit "true")
  pub schema : get schema_label labels ≡ some (lit "1")
  pub app_id : get app_id_label labels ≡ some (uuid.to_string app.id)
  pub release_id : get release_id_label labels ≡ some (uuid.to_string release)
  pub project : get project_label labels ≡ some app.project_name
  pub service : get service_label labels ≡ some (lit "app")
  pub oneoff : get oneoff_label labels ≡ some (lit "False")

abbrev from_some {ℓ} : {A : Type ℓ} → A → Option A → A
from_some a none = a
from_some a (some b) = b

and_six :
    (a b c d e f : Bool)
    → a && (b && (c && (d && (e && f)))) ≡ true
    → (a ≡ true) × (b ≡ true) × (c ≡ true) × (d ≡ true) × (e ≡ true) × (f ≡ true)
and_six a b c d e f h = ground arith

option_is_sound : (o : Option Uuid) (id : Uuid) → option_is o id ≡ true → o ≡ some id
option_is_sound none id h = cc
option_is_sound (some a) id h = ap some ((==_iff a id).0 h)

label_is_iff :
    (key value : Text) (labels : Labels)
    → (label_is key value labels ≡ true) ↔ (get key labels ≡ some value)
unfolding label_is
label_is_iff key value labels = option_same_iff (get key labels) (some value)

module _ (uuid : UuidCrate) where
  canonical_uuid_sound :
      (value : Text) (id : Uuid) → canonical_uuid uuid value ≡ some id → value ≡ uuid.to_string id
  unfolding canonical_uuid
  canonical_uuid_sound value id h = elim (Option-cases (uuid.parse value)) [
    | inl e ↦ let h' = rw (canonical_uuid, e) at h in cc
    | inr (a, e) ↦ elim (Bool-cases (same value (uuid.to_string a))) [
      | inl t ↦
          (same_iff value (uuid.to_string a)).0 t
          ∙ ap (λ o. uuid.to_string (from_some a o)) (rw (canonical_uuid, e, t) at h)
      | inr f ↦ let h' = rw (canonical_uuid, e, f) at h in cc
    ]
  ]

  label_uuid_sound :
      (key : Text) (labels : Labels) (id : Uuid)
      → label_uuid uuid key labels ≡ some id
      → get key labels ≡ some (uuid.to_string id)
  unfolding label_uuid
  label_uuid_sound key labels id h = elim (Option-cases (get key labels)) [
    | inl e ↦ let h' = rw (label_uuid, e) at h in cc
    | inr (value, e) ↦ e ∙ ap some (canonical_uuid_sound value id (rw (label_uuid, e) at h))
  ]

  label_uuid_complete :
      (key : Text) (labels : Labels) (id : Uuid)
      → uuid.parse (uuid.to_string id) ≡ some id
      → get key labels ≡ some (uuid.to_string id)
      → label_uuid uuid key labels ≡ some id
  unfolding label_uuid canonical_uuid
  label_uuid_complete key labels id p h =
      rw
        (
          label_uuid,
          h,
          canonical_uuid,
          p,
          (same_iff (uuid.to_string id) (uuid.to_string id)).1 refl,
        )
        refl

  has_project_labels_sound :
      (labels : Labels) (app : AppCatalogEntry) (a release : Uuid)
      → has_project_labels uuid labels app a ≡ true
      → label_uuid uuid app_id_label labels ≡ some a
      → label_uuid uuid release_id_label labels ≡ some release
      → (a ≡ app.id) × Carries uuid labels app release
  unfolding has_project_labels
  has_project_labels_sound labels app a release t ea er =
      let (m, sc, i, p, se, o) = and_six _ _ _ _ _ _ t in
      let same_id = (==_iff a app.id).0 i in
      (
        same_id,
        record {
          managed = (label_is_iff managed_label (lit "true") labels).0 m;
          schema = (label_is_iff schema_label (lit "1") labels).0 sc;
          app_id =
              label_uuid_sound app_id_label labels a ea ∙ ap (λ u. some (uuid.to_string u)) same_id;
          release_id = label_uuid_sound release_id_label labels release er;
          project = (label_is_iff project_label app.project_name labels).0 p;
          service = (label_is_iff service_label (lit "app") labels).0 se;
          oneoff = (label_is_iff oneoff_label (lit "False") labels).0 o;
        },
      )

  has_project_labels_complete :
      (labels : Labels) (app : AppCatalogEntry) (release : Uuid)
      → Carries uuid labels app release
      → has_project_labels uuid labels app app.id ≡ true
  unfolding has_project_labels
  has_project_labels_complete labels app release c =
      rw
        (
          (label_is_iff managed_label (lit "true") labels).1 c.managed,
          (label_is_iff schema_label (lit "1") labels).1 c.schema,
          ==_refl app.id,
          (label_is_iff project_label app.project_name labels).1 c.project,
          (label_is_iff service_label (lit "app") labels).1 c.service,
          (label_is_iff oneoff_label (lit "False") labels).1 c.oneoff,
        )
        refl

  validate_syntactic_identity_sound :
      (labels : Labels) (app : AppCatalogEntry) (identity : OwnedIdentity)
      → validate_syntactic_identity uuid labels app ≡ some identity
      → (identity.app_id ≡ app.id) × Carries uuid labels app identity.release_id
  unfolding validate_syntactic_identity
  validate_syntactic_identity_sound labels app identity h =
      elim (Option-cases (label_uuid uuid app_id_label labels)) [
        | inl e ↦ let h' = rw (validate_syntactic_identity, e) at h in cc
        | inr (a, ea) ↦ elim (Option-cases (label_uuid uuid release_id_label labels)) [
          | inl e ↦ let h' = rw (validate_syntactic_identity, ea, e) at h in cc
          | inr (r, er) ↦ elim (Bool-cases (has_project_labels uuid labels app a)) [
            | inl t ↦
                let e = rw (validate_syntactic_identity, ea, er, t) at h in
                let (i, c) = has_project_labels_sound labels app a r t ea er in
                (
                  ap (λ o. (from_some identity o).app_id) (sym e) ∙ i,
                  rw (ap (λ o. (from_some identity o).release_id) (sym e)) c,
                )
            | inr f ↦ let h' = rw (validate_syntactic_identity, ea, er, f) at h in cc
          ]
        ]
      ]

  validate_syntactic_identity_complete :
      (labels : Labels) (app : AppCatalogEntry) (release : Uuid)
      → ((id : Uuid) → uuid.parse (uuid.to_string id) ≡ some id)
      → Carries uuid labels app release
      → validate_syntactic_identity uuid labels app
        ≡ some (record { app_id = app.id; release_id = release })
  unfolding validate_syntactic_identity
  validate_syntactic_identity_complete labels app release p c =
      rw
        (
          validate_syntactic_identity,
          label_uuid_complete app_id_label labels app.id (p app.id) c.app_id,
          label_uuid_complete release_id_label labels release (p release) c.release_id,
          has_project_labels_complete labels app release c,
        )
        refl

  validate_identity_sound :
      (labels : Labels) (app : AppCatalogEntry) (identity : OwnedIdentity)
      → validate_identity uuid labels app ≡ some identity
      → (validate_syntactic_identity uuid labels app ≡ some identity)
        × (app.active_release_id ≡ some identity.release_id)
  unfolding validate_identity
  validate_identity_sound labels app identity h =
      elim (Option-cases (validate_syntactic_identity uuid labels app)) [
        | inl e ↦ let h' = rw (validate_identity, e) at h in cc
        | inr (seen, e) ↦ elim (Bool-cases (option_is app.active_release_id seen.release_id)) [
          | inl t ↦
              let same = rw (validate_identity, e, t) at h in
              (
                e ∙ same,
                option_is_sound app.active_release_id seen.release_id t
                    ∙ ap (λ o. some (from_some seen o).release_id) same,
              )
          | inr f ↦ let h' = rw (validate_identity, e, f) at h in cc
        ]
      ]

  -- A container is accepted as that of the active release of an application exactly when it carries
  -- every label of the application, in the form that SoloDock prints, and its release is the active
  -- one. The parser of the `uuid` crate reads what the crate prints.
  pub validate_identity_iff :
      (labels : Labels) (app : AppCatalogEntry) (release : Uuid)
      → ((id : Uuid) → uuid.parse (uuid.to_string id) ≡ some id)
      → (validate_identity uuid labels app
          ≡ some (record { app_id = app.id; release_id = release }))
        ↔ (Carries uuid labels app release × (app.active_release_id ≡ some release))
  unfolding validate_identity
  validate_identity_iff labels app release p = (
    λ h.
        let (syntactic, active) = validate_identity_sound labels app _ h in
        ((validate_syntactic_identity_sound labels app _ syntactic).1, active),
    λ (c, a).
        rw
          (
            validate_identity,
            validate_syntactic_identity_complete labels app release p c,
            a,
            ==_refl release,
          )
          refl,
  )

  printed-injective :
      (a b : Uuid)
      → ((id : Uuid) → uuid.parse (uuid.to_string id) ≡ some id)
      → some (uuid.to_string a) ≡ some (uuid.to_string b)
      → a ≡ b
  printed-injective a b p e =
      ap (from_some a) (sym (p a) ∙ ap (λ o. uuid.parse (from_some (uuid.to_string a) o)) e ∙ p b)

  -- No container is one of two applications: where its labels are accepted for both, they have the
  -- same id, and the two answers name the same release. The parser of the `uuid` crate reads what the
  -- crate prints.
  pub validate_identity_unique :
      (labels : Labels) (app other : AppCatalogEntry) (identity second : OwnedIdentity)
      → ((id : Uuid) → uuid.parse (uuid.to_string id) ≡ some id)
      → validate_identity uuid labels app ≡ some identity
      → validate_identity uuid labels other ≡ some second
      → (app.id ≡ other.id) × (identity.release_id ≡ second.release_id)
  validate_identity_unique labels app other identity second p h k =
      let (i, c) =
        validate_syntactic_identity_sound labels app identity
          (validate_identity_sound labels app identity h).0 in
      let (j, d) =
        validate_syntactic_identity_sound labels other second
          (validate_identity_sound labels other second k).0 in
      (
        printed-injective app.id other.id p (sym c.app_id ∙ d.app_id),
        printed-injective identity.release_id second.release_id p (sym c.release_id ∙ d.release_id),
      )
