-- ===== src/Tests/Images.antt =====
-- Image references and identities (src/registry/reference.rs, src/registry/image_identity.rs), and the
-- labels of a container (src/docker/ownership.rs), on small inputs.
use solodock.Docker.Models.{get, Labels}
use solodock.Base.{
  zero, suc, suc, ap, ◌⊎◌, ◌↔◌, ℕ, length, ◌≡◌, refl, some, none, [], ◌∷◌, arith, ok,
}
use solodock.Base.Text.{contains, rsplit_once, join, split, strip_prefix, same, Text, lit}
use solodock.Database.{Uuid}
use solodock.Registry.Reference.{parse, validate_digest, ImageReference}
use solodock.Registry.Reference.Digest.{validate_digest_iff, IsDigest}
use solodock.Registry.Identity.{canonical, ManifestDescriptor, ImageIdentity, Platform, new}
use solodock.Registry.Identity.Observed.{
  new-matches_observation, matches_observation_sound, descriptor_of,
}
use solodock.Docker.Ownership.{
  oneoff_label, service_label, project_label, release_id_label, app_id_label, schema_label,
  managed_label, validate_syntactic_identity, UuidCrate, AppCatalogEntry, validate_identity,
}
use solodock.Docker.Ownership.Exact.{validate_identity_iff, validate_identity_unique, Carries}

abbrev postgres : ImageReference
postgres = record {
  logical_registry = lit "docker.io";
  transport_registry = lit "registry-1.docker.io";
  repository = lit "library/postgres";
  tag = lit "16-alpine";
  canonical_tagged_ref = lit "docker.io/library/postgres:16-alpine";
  docker_auth_key = lit "https://index.docker.io/v1/";
}

parse_postgres : parse (lit "postgres:16-alpine") ≡ ok postgres
unfolding parse same split join rsplit_once strip_prefix contains
parse_postgres = refl

abbrev manifest : Text
manifest = lit "sha256:aaaaaaaaaaaaaaaaaaaaaaaaaaaaaaaaaaaaaaaaaaaaaaaaaaaaaaaaaaaaaaaa"

abbrev config : Text
config = lit "sha256:bbbbbbbbbbbbbbbbbbbbbbbbbbbbbbbbbbbbbbbbbbbbbbbbbbbbbbbbbbbbbbbb"

abbrev linux : Platform
linux = record { os = lit "linux"; architecture = lit "x86_64"; variant = none }

abbrev image : ImageIdentity
image = record {
  manifest_digest = manifest;
  config_digest = config;
  platform = record { os = lit "linux"; architecture = lit "amd64"; variant = none };
}

validate_digest_iff_example : (validate_digest manifest ≡ ok tt) ↔ IsDigest manifest
validate_digest_iff_example = validate_digest_iff manifest

new-image : new manifest config linux ≡ ok image
unfolding new validate_digest strip_prefix canonical same
new-image = refl

matches_observation_sound_example :
    ((value : Text) × (some config ≡ some value)
      × IsDigest value
      × ((value ≡ config) ⊎ (value ≡ manifest)))
    × ((some (descriptor_of manifest linux) ≡ none)
        ⊎ ((d : ManifestDescriptor) × (some (descriptor_of manifest linux) ≡ some d)
            × (d.digest ≡ some manifest)))
matches_observation_sound_example =
    matches_observation_sound image (some config) (some (descriptor_of manifest linux))
      (new-matches_observation manifest config linux image new-image).0

-- An id is printed as that many bytes.
abbrev tally : ℕ → Text
tally zero = []
tally (suc n) = b'1' ∷ tally n

abbrev uuid : UuidCrate
uuid = record { parse = λ s. some (length s); to_string = tally }

parse_length : (id : Uuid) → length (tally id) ≡ id
parse_length zero = refl
parse_length (suc n) = omega (arith, parse_length n)

parse_tally : (id : Uuid) → some (length (tally id)) ≡ some id
parse_tally id = ap some (parse_length id)

abbrev app : AppCatalogEntry
app = record {
  id = 2;
  project_name = lit "solodock-app";
  active_release_id = some 3;
  pending_release_id = none;
}

abbrev labels : Labels
labels =
    (managed_label, lit "true")
    ∷ (schema_label, lit "1")
    ∷ (app_id_label, lit "11")
    ∷ (release_id_label, lit "111")
    ∷ (project_label, lit "solodock-app")
    ∷ (service_label, lit "app")
    ∷ (oneoff_label, lit "False")
    ∷ []

validate_identity_iff_example :
    (validate_identity uuid labels app ≡ some (record { app_id = 2; release_id = 3 }))
    ↔ (Carries uuid labels app 3 × (app.active_release_id ≡ some 3))
validate_identity_iff_example = validate_identity_iff uuid labels app 3 parse_tally

abbrev pending_app : AppCatalogEntry
pending_app = record app { pending_release_id = some 9 }

validate_identity_unique_example : (app.id ≡ pending_app.id) × (◌≡◌ {A = ℕ} 3 3)
unfolding validate_identity validate_syntactic_identity same get
validate_identity_unique_example =
    validate_identity_unique uuid labels app pending_app (record { app_id = 2; release_id = 3 })
      (record { app_id = 2; release_id = 3 }) parse_tally refl refl
