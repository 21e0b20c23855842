-- ===== src/Domain/Draft/Integrity.antt =====
-- The integrity of a configuration: `canonical_non_secret` and `verify_config_integrity`
-- (src/domain/validation.rs). Hashes and JSON are parameters.
use solodock.Base.{
  ℕ, Bool, true, false, ◌&&◌, ◌||◌, not, ◌==◌, ltb, Option, List, [], ◌∷◌, Result, ok, ensure,
  ok_or, ◌>>=◌, ◌>>◌, if◌then◌else◌, is_some,
}
use solodock.Base.Text.{Text, same}
use solodock.Webhook.Protocol.{hex_text}
use solodock.Deploy.Health.{HealthPolicy}
use solodock.Domain.Errors.{DomainError}
use solodock.Domain.Ports.{PortInput}
use solodock.Domain.Mounts.{VolumeInput, BindMountInput, ManagedFileMetadata}
use solodock.Domain.Environment.{PublicEnvInput}
use solodock.Domain.Networks.{NetworkInput}
use solodock.Domain.Draft.{ExistingSecrets}

pub record ConfigMetadata : Type 0 where
  pub security_profile : Option Text
  pub schema_version : ℕ
  pub stop_grace_period_seconds : ℕ
  pub environment_order : Option (List Text)
  pub public_env_keys : List Text
  pub secret_keys : List Text
  pub secret_hmacs : List (Text × Text)
  pub files : List ManagedFileMetadata
  pub public_file_sha256s : List (Text × Text)
  pub secret_file_hmacs : List (Text × Text)
  pub ports : List PortInput
  pub volumes : List VolumeInput
  pub binds : List BindMountInput
  pub owned_default_network : Bool
  pub service_discovery_enabled : Bool
  pub networks : List NetworkInput
  pub health : HealthPolicy
  pub config_sha256 : Text

pub record LegacyConfigMetadata : Type 0 where
  pub schema_version : ℕ
  pub public_env_keys : List Text
  pub secret_keys : List Text
  pub secret_hmacs : List (Text × Text)
  pub files : List ManagedFileMetadata
  pub public_file_sha256s : List (Text × Text)
  pub secret_file_hmacs : List (Text × Text)
  pub ports : List PortInput
  pub volumes : List VolumeInput
  pub binds : List BindMountInput
  pub owned_default_network : Bool
  pub networks : List NetworkInput
  pub health : HealthPolicy
  pub config_sha256 : Text

-- What `serde_json::to_vec` gets, with the public environment and the public files.
pub data CanonicalMetadata : Type 0 where
  legacy : LegacyConfigMetadata → CanonicalMetadata
  schema2 : ℕ → LegacyConfigMetadata → CanonicalMetadata
  current : ConfigMetadata → CanonicalMetadata

pub record Canonical : Type 0 where
  pub metadata : CanonicalMetadata
  pub public_environment : List PublicEnvInput
  pub public_files : List (Text × Text)

-- `Sha256::digest`; the HMAC of a value under a key, none for a key that is refused; and
-- `serde_json::to_vec`.
pub record Hashing : Type 0 where
  pub sha256 : Text → Text
  pub hmac : Text → Text → Option Text
  pub to_vec : Canonical → Option Text

abbrev pub legacy_metadata : ConfigMetadata → LegacyConfigMetadata
legacy_metadata metadata = record {
  schema_version = metadata.schema_version;
  public_env_keys = metadata.public_env_keys;
  secret_keys = metadata.secret_keys;
  secret_hmacs = metadata.secret_hmacs;
  files = metadata.files;
  public_file_sha256s = metadata.public_file_sha256s;
  secret_file_hmacs = metadata.secret_file_hmacs;
  ports = metadata.ports;
  volumes = metadata.volumes;
  binds = metadata.binds;
  owned_default_network = metadata.owned_default_network;
  networks = metadata.networks;
  health = metadata.health;
  config_sha256 = metadata.config_sha256;
}

-- The fields that a schema version serializes. (Version 2 adds the grace period to the first.)
unfoldable pub canonical_metadata : ConfigMetadata → CanonicalMetadata
canonical_metadata metadata =
    if metadata.schema_version == 1
    then CanonicalMetadata.legacy (legacy_metadata metadata)
    else if metadata.schema_version == 2
    then CanonicalMetadata.schema2 metadata.stop_grace_period_seconds (legacy_metadata metadata)
    else CanonicalMetadata.current metadata

abbrev pub without_hash : ConfigMetadata → ConfigMetadata
without_hash metadata = record metadata { config_sha256 = [] }

-- `==` of two maps.
unfoldable pub same_entries : List (Text × Text) → List (Text × Text) → Bool
same_entries [] [] = true
same_entries ((k, v) ∷ xs) ((l, w) ∷ ys) = (same k l && same v w) && same_entries xs ys
same_entries _ _ = false

module _ (hashing : Hashing) where
  unfoldable pub hmac_hex : Text → Text → Result DomainError Text
  unfolding hex_text
  hmac_hex key value = do
    mac ← ok_or (hashing.hmac key value) DomainError.internal
    ok (hex_text mac)

  unfoldable pub sha256_hex : Text → Text
  unfolding hex_text
  sha256_hex value = hex_text (hashing.sha256 value)

  unfoldable pub canonical_non_secret :
      ConfigMetadata → List PublicEnvInput → List (Text × Text) → Result DomainError Text
  unfolding canonical_metadata
  canonical_non_secret metadata public_environment public_files = do
    ensure
        (not (
          ltb metadata.schema_version 4
          && (is_some metadata.security_profile || is_some metadata.environment_order)))
        DomainError.config_invalid
    ok_or
        (hashing.to_vec record {
          metadata = canonical_metadata metadata;
          public_environment = public_environment;
          public_files = public_files;
        })
        DomainError.internal

  -- The HMACs of a map of secrets.
  unfoldable pub hmacs : Text → List (Text × Text) → Result DomainError (List (Text × Text))
  unfolding hmac_hex
  hmacs key [] = ok []
  hmacs key ((name, value) ∷ secrets) = do
    mac ← hmac_hex key value
    rest ← hmacs key secrets
    ok ((name, mac) ∷ rest)

  unfoldable pub file_hashes : List (Text × Text) → List (Text × Text)
  unfolding sha256_hex
  file_hashes [] = []
  file_hashes ((name, content) ∷ files) = (name, sha256_hex content) ∷ file_hashes files

  unfoldable pub config_hash :
      ConfigMetadata → List PublicEnvInput → List (Text × Text) → Result DomainError Text
  unfolding canonical_non_secret sha256_hex
  config_hash metadata public_environment public_files = do
    canonical ← canonical_non_secret metadata public_environment public_files
    ok (sha256_hex canonical)

  unfoldable pub verify_config_integrity :
      ConfigMetadata
      → List PublicEnvInput
      → List (Text × Text)
      → ExistingSecrets
      → Text
      → Result DomainError (Unit {0})
  unfolding hmacs file_hashes config_hash same_entries
  verify_config_integrity metadata public_environment public_files secrets hmac_key = do
    expected_secret_env ← hmacs hmac_key secrets.environment
    expected_secret_files ← hmacs hmac_key secrets.files
    ensure
        (not (
          not (same_entries metadata.secret_hmacs expected_secret_env)
          || (not (same_entries metadata.secret_file_hmacs expected_secret_files)
              || not (same_entries metadata.public_file_sha256s (file_hashes public_files)))))
        DomainError.config_invalid
    expected_hash ← config_hash (without_hash metadata) public_environment public_files
    ensure (same metadata.config_sha256 expected_hash) DomainError.config_invalid
