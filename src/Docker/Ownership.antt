-- ===== src/Docker/Ownership.antt =====
-- Which containers SoloDock owns (src/docker/ownership.rs). The `uuid` crate is a parameter: its
-- parser, and the text that it prints.
use solodock.Base.{
  Bool, false, ◌&&◌, ◌||◌, Option, none, some, List, ◌==◌, if◌then◌else◌, option_eq, length, any,
  all,
}
use solodock.Base.Text.{same, is_lower_hex, Text, lit}
use solodock.Database.{Uuid}
use solodock.Docker.Models.{Labels, get}
pub mod Exact

abbrev pub managed_label : Text
managed_label = lit "com.solodock.managed"

abbrev pub schema_label : Text
schema_label = lit "com.solodock.schema-version"

abbrev pub app_id_label : Text
app_id_label = lit "com.solodock.app-id"

abbrev pub release_id_label : Text
release_id_label = lit "com.solodock.release-id"

abbrev pub project_label : Text
project_label = lit "com.docker.compose.project"

abbrev pub service_label : Text
service_label = lit "com.docker.compose.service"

abbrev pub oneoff_label : Text
oneoff_label = lit "com.docker.compose.oneoff"

pub record OwnedIdentity : Type 0 where
  pub app_id : Uuid
  pub release_id : Uuid

-- The columns of `AppCatalogEntry` that ownership reads.
pub record AppCatalogEntry : Type 0 where
  pub id : Uuid
  pub project_name : Text
  pub active_release_id : Option Uuid
  pub pending_release_id : Option Uuid

-- The `uuid` crate: `str::parse::<Uuid>` and `Uuid::to_string`.
pub record UuidCrate : Type 0 where
  pub parse : Text → Option Uuid
  pub to_string : Uuid → Text

-- `labels.get(key).map(String::as_str) == Some(value)`.
unfoldable pub label_is : Text → Text → Labels → Bool
label_is key value labels = option_eq same (get key labels) (some value)

abbrev pub option_is : Option Uuid → Uuid → Bool
option_is none id = false
option_is (some a) id = a == id

module _ (uuid : UuidCrate) where
  unfoldable pub canonical_uuid : Text → Option Uuid
  canonical_uuid value = elim (uuid.parse value) [
    | none ↦ none
    | some id ↦ if same value (uuid.to_string id) then some id else none
  ]

  -- `canonical_uuid(labels.get(key)?)`.
  unfoldable pub label_uuid : Text → Labels → Option Uuid
  unfolding canonical_uuid
  label_uuid key labels = elim (get key labels) [ none ↦ none | some value ↦ canonical_uuid value ]

  unfoldable pub has_project_labels : Labels → AppCatalogEntry → Uuid → Bool
  unfolding label_is
  has_project_labels labels app app_id =
      label_is managed_label (lit "true") labels
      && (label_is schema_label (lit "1") labels
          && (app_id == app.id
              && (label_is project_label app.project_name labels
                  && (label_is service_label (lit "app") labels
                      && label_is oneoff_label (lit "False") labels))))

  unfoldable pub validate_syntactic_identity : Labels → AppCatalogEntry → Option OwnedIdentity
  unfolding label_uuid has_project_labels
  validate_syntactic_identity labels app = elim (label_uuid app_id_label labels) [
    | none ↦ none
    | some app_id ↦ elim (label_uuid release_id_label labels) [
      | none ↦ none
      | some release_id ↦
          if has_project_labels labels app app_id
          then some (record { app_id = app_id; release_id = release_id })
          else none
    ]
  ]

  unfoldable pub validate_identity : Labels → AppCatalogEntry → Option OwnedIdentity
  validate_identity labels app = elim (validate_syntactic_identity labels app) [
    | none ↦ none
    | some identity ↦
        if option_is app.active_release_id identity.release_id then some identity else none
  ]

  unfoldable pub validate_observed_identity : Labels → AppCatalogEntry → Option OwnedIdentity
  validate_observed_identity labels app = elim (validate_syntactic_identity labels app) [
    | none ↦ none
    | some identity ↦
        if option_is app.active_release_id identity.release_id
          || option_is app.pending_release_id identity.release_id
        then some identity
        else none
  ]

  unfoldable pub claimed_app_id : Labels → Option Uuid
  claimed_app_id labels = elim (get app_id_label labels) [
    | none ↦ none
    | some value ↦ uuid.parse value
  ]

unfoldable pub release_is_allowed : OwnedIdentity → List Uuid → Bool
release_is_allowed identity releases = any (λ r. r == identity.release_id) releases

unfoldable pub is_managed_candidate : Labels → Bool
unfolding label_is
is_managed_candidate labels = label_is managed_label (lit "true") labels

unfoldable pub valid_container_id : Text → Bool
valid_container_id value = length value == 64 && all is_lower_hex value
