-- ===== src/Domain/Draft/Normalize.antt =====
-- The normalization of a draft: `normalize_draft_with_options` and its callers
-- (src/domain/validation.rs).
use solodock.Base.{ℕ, Bool, true, false, List, [], map, Result, ok, err, ◌>>=◌, ◌>>◌}
use solodock.Base.Text.{Text, lit}
use solodock.Domain.Errors.{DomainError, DraftValidationError, at, at_path}
use solodock.Domain.Ports.{validate_ports}
use solodock.Domain.Mounts.{ManagedFileMetadata, validate_volumes, validate_mount_target_conflicts}
use solodock.Domain.Binds.{FileSystem, validate_binds_detailed_with_options}
use solodock.Domain.Limits.{validate_health}
use solodock.Domain.Environment.{normalize_environment, validate_order}
use solodock.Domain.Files.{normalize_files}
use solodock.Domain.Networks.{NetworkValidationError, normalize_networks_with_issues}
use solodock.Domain.Sorting.{sort_by_key}
use solodock.Domain.Draft.{DraftInput, ExistingSecrets, check_draft}
use solodock.Domain.Draft.Parts.{NormalizedDraft, DraftParts, sort_ports, volume_sort_key}
use solodock.Domain.Draft.Integrity.{ConfigMetadata, Hashing, hmacs, file_hashes, config_hash}

-- `map_err` of a network issue to an issue of the draft.
abbrev pub at_draft {ℓ} :
    {A : Type ℓ} → Result NetworkValidationError A → Result DraftValidationError A
at_draft (ok a) = ok a
at_draft (err error) = err (at error.error error.path error.code)

module _ (fs : FileSystem) where
  unfoldable pub check_storage :
      DraftInput
      → List (List Text)
      → Bool
      → List (ManagedFileMetadata × ℕ)
      → Result DraftValidationError (Unit {0})
  unfolding validate_ports validate_volumes validate_binds_detailed_with_options
      validate_mount_target_conflicts
  check_storage input allowed_bind_roots enforce_bind_plan files = do
    validate_ports input.ports
    validate_volumes input.volumes
    identities ←
        validate_binds_detailed_with_options fs input.binds allowed_bind_roots enforce_bind_plan
    validate_mount_target_conflicts files input.volumes input.binds

  unfoldable pub normalize_parts :
      DraftInput
      → ExistingSecrets
      → List (List Text)
      → Bool
      → Result DraftValidationError DraftParts
  unfolding check_draft normalize_environment validate_order normalize_files check_storage
      normalize_networks_with_issues validate_health
  normalize_parts input existing allowed_bind_roots enforce_bind_plan = do
    check_draft input
    (public_environment, secret_environment) ←
        normalize_environment input.environment existing.environment
    validate_order input.environment.order public_environment secret_environment
    (files, (public_files, secret_files)) ← normalize_files input.files existing.files
    check_storage input allowed_bind_roots enforce_bind_plan files
    (networks, plan) ← at_draft (
        normalize_networks_with_issues input.owned_default_network input.service_discovery_enabled
          input.networks)
    validate_health input.health
    ok record {
      public_environment = public_environment;
      secret_environment = secret_environment;
      files = files;
      public_files = public_files;
      secret_files = secret_files;
      networks = networks;
    }

module _ (hashing : Hashing) where
  -- The metadata before its hash, from the HMACs.
  unfoldable pub draft_metadata :
      DraftInput → DraftParts → List (Text × Text) → List (Text × Text) → ConfigMetadata
  unfolding file_hashes sort_by_key sort_ports
  draft_metadata input parts secret_hmacs secret_file_hmacs = record {
    security_profile = input.security_profile;
    schema_version = 4;
    stop_grace_period_seconds = input.stop_grace_period_seconds;
    environment_order = input.environment.order;
    public_env_keys = map (λ entry. entry.key) parts.public_environment;
    secret_keys = map (λ (entry : Text × Text). entry.0) parts.secret_environment;
    secret_hmacs = secret_hmacs;
    files = map (λ (entry : ManagedFileMetadata × ℕ). entry.0) parts.files;
    public_file_sha256s = file_hashes hashing parts.public_files;
    secret_file_hmacs = secret_file_hmacs;
    ports = sort_ports input.ports;
    volumes = sort_by_key volume_sort_key input.volumes;
    binds = sort_by_key (λ bind. bind.target_path) input.binds;
    owned_default_network = input.owned_default_network;
    service_discovery_enabled = input.service_discovery_enabled;
    networks = parts.networks;
    health = input.health;
    config_sha256 = [];
  }

-- The draft with its metadata. (`trim` leaves a display name that was accepted.)
unfoldable pub finish_draft : DraftInput → DraftParts → ConfigMetadata → NormalizedDraft
unfolding sort_by_key sort_ports
finish_draft input parts metadata = record {
  security_profile = input.security_profile;
  display_name = input.display_name;
  discovery_image_ref = input.discovery_image_ref;
  credential_ref = input.credential_ref;
  auto_deploy_enabled = input.auto_deploy_enabled;
  auto_deploy_acknowledged = input.auto_deploy_acknowledged;
  poll_interval_seconds = input.poll_interval_seconds;
  stop_grace_period_seconds = input.stop_grace_period_seconds;
  public_environment = parts.public_environment;
  secret_environment = parts.secret_environment;
  files = map (λ (entry : ManagedFileMetadata × ℕ). entry.0) parts.files;
  public_files = parts.public_files;
  secret_files = parts.secret_files;
  ports = sort_ports input.ports;
  volumes = sort_by_key volume_sort_key input.volumes;
  binds = sort_by_key (λ bind. bind.target_path) input.binds;
  owned_default_network = input.owned_default_network;
  service_discovery_enabled = input.service_discovery_enabled;
  networks = parts.networks;
  health = input.health;
  metadata = metadata;
}

-- The error alone.
abbrev pub error_only {ℓ} : {A : Type ℓ} → Result DraftValidationError A → Result DomainError A
error_only (ok a) = ok a
error_only (err error) = err error.error

module _ (fs : FileSystem) (hashing : Hashing) where
  unfoldable pub normalize_draft_with_options :
      DraftInput
      → ExistingSecrets
      → Text
      → List (List Text)
      → Bool
      → Result DraftValidationError NormalizedDraft
  unfolding normalize_parts hmacs draft_metadata config_hash finish_draft
  normalize_draft_with_options input existing hmac_key allowed_bind_roots enforce_bind_plan = do
    parts ← normalize_parts fs input existing allowed_bind_roots enforce_bind_plan
    secret_hmacs ←
        at_path (lit "environment.secrets") "CONFIG_INVALID"
          (hmacs hashing hmac_key parts.secret_environment)
    secret_file_hmacs ←
        at_path (lit "files") "CONFIG_INVALID" (hmacs hashing hmac_key parts.secret_files)
    let metadata = draft_metadata hashing input parts secret_hmacs secret_file_hmacs
    hash ←
        at_path (lit "draft") "CONFIG_INVALID"
          (config_hash hashing metadata parts.public_environment parts.public_files)
    ok (finish_draft input parts (record metadata { config_sha256 = hash }))

  unfoldable pub normalize_draft_with_issues :
      DraftInput
      → ExistingSecrets
      → Text
      → List (List Text)
      → Result DraftValidationError NormalizedDraft
  unfolding normalize_draft_with_options
  normalize_draft_with_issues input existing hmac_key allowed_bind_roots =
      normalize_draft_with_options input existing hmac_key allowed_bind_roots true

  unfoldable pub normalize_draft :
      DraftInput → ExistingSecrets → Text → List (List Text) → Result DomainError NormalizedDraft
  unfolding normalize_draft_with_issues
  normalize_draft input existing hmac_key allowed_bind_roots =
      error_only (normalize_draft_with_issues input existing hmac_key allowed_bind_roots)

  unfoldable pub normalize_existing_draft :
      DraftInput → ExistingSecrets → Text → List (List Text) → Result DomainError NormalizedDraft
  unfolding normalize_draft_with_options
  normalize_existing_draft input existing hmac_key allowed_bind_roots =
      error_only (normalize_draft_with_options input existing hmac_key allowed_bind_roots false)
