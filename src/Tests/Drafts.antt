-- ===== src/Tests/Drafts.antt =====
-- Drafts, environments, files and networks (src/domain/) on small inputs.
use solodock.Base.{
  ◌+◌, ◌≤◌, ◌≡◌, refl, true, false, none, some, List, [], ◌∷◌, ◌++◌, All, map, length, ok,
}
use solodock.Base.Text.{Text, lit, same, contains, strip_prefix, split, rsplit_once, join}
use solodock.Domain.Names.{validate_text}
use solodock.Deploy.Health.{HealthPolicy}
use solodock.Domain.Mounts.{ManagedFileMetadata}
use solodock.Domain.Binds.{FileSystem}
use solodock.Domain.Environment.{
  EnvironmentInput, PublicEnvInput, SecretEnvInput, SecretOperation, normalize_environment,
}
use solodock.Domain.Files.{
  ManagedFileInput, ManagedFileContent, normalize_files, max_file_total_bytes,
}
use solodock.Domain.Files.Placed.{Entry, IsMountable, Differ, content_bytes}
use solodock.Domain.Files.Accepted.{normalize_files_sound}
use solodock.Domain.Sorting.Kept.{Pairwise}
use solodock.Domain.Networks.{
  NetworkInput, NetworkMode, NetworkPlan, AppResourceNames, expected_networks,
  normalize_networks_with_issues, max_external_networks,
}
use solodock.Domain.Networks.Plan.{normalize_networks_with_issues-plan}
use solodock.Domain.Draft.{DraftInput, ExistingSecrets}
use solodock.Domain.Draft.Parts.{NormalizedDraft, DraftParts}
use solodock.Domain.Draft.Integrity.{ConfigMetadata, Hashing, verify_config_integrity}
use solodock.Domain.Draft.Normalize.{draft_metadata, finish_draft, normalize_draft_with_options}
use solodock.Domain.Draft.Composed.{normalize_draft-verify, stored}
use solodock.Domain.Draft.Deployable.{normalize_draft_sound, IsDeployable}

abbrev mode_entry : PublicEnvInput
mode_entry = record { key = lit "MODE"; value = lit "live" }

abbrev token_secret : SecretEnvInput
token_secret = record { key = lit "TOKEN"; operation = SecretOperation.keep }

abbrev environment : EnvironmentInput
environment = record { order = none; public = mode_entry ∷ []; secrets = token_secret ∷ [] }

abbrev stored_tokens : List (Text × Text)
stored_tokens = (lit "TOKEN", lit "s3cret") ∷ []

environment-accepted :
    normalize_environment environment stored_tokens ≡ ok (mode_entry ∷ [], stored_tokens)
unfolding normalize_environment same
environment-accepted = refl

abbrev settings_file : ManagedFileInput
settings_file = record {
  logical_name = lit "settings";
  target_path = lit "/etc/settings";
  sensitive = false;
  readonly = true;
  content = ManagedFileContent.public (lit "a=1");
}

abbrev key_file : ManagedFileInput
key_file = record {
  logical_name = lit "key";
  target_path = lit "/etc/key";
  sensitive = true;
  readonly = true;
  content = ManagedFileContent.secret (SecretOperation.replace (lit "k"));
}

abbrev described : ManagedFileInput → ManagedFileMetadata
described file = record {
  logical_name = file.logical_name;
  target_path = file.target_path;
  sensitive = file.sensitive;
  readonly = true;
}

abbrev file_entries : List Entry
file_entries = (described key_file, 1) ∷ (described settings_file, 0) ∷ []

abbrev public_contents : List (Text × Text)
public_contents = (lit "settings", lit "a=1") ∷ []

abbrev secret_contents : List (Text × Text)
secret_contents = (lit "key", lit "k") ∷ []

files-accepted :
    normalize_files (settings_file ∷ key_file ∷ []) []
    ≡ ok (file_entries, (public_contents, secret_contents))
unfolding normalize_files same validate_text contains strip_prefix split
files-accepted = refl

normalize_files_sound_example :
    All IsMountable file_entries
    × (Pairwise Differ file_entries
        × (content_bytes public_contents + content_bytes secret_contents ≤ max_file_total_bytes))
normalize_files_sound_example =
    normalize_files_sound (settings_file ∷ key_file ∷ []) [] file_entries public_contents
      secret_contents files-accepted

abbrev shared_network : NetworkInput
shared_network = NetworkInput.external (lit "shared") (lit "web" ∷ [])

abbrev shared_plan : NetworkPlan
shared_plan = record {
  owned_default_network = true;
  service_discovery_enabled = false;
  mode = NetworkMode.owned_and_external;
  external = record { name = lit "shared"; aliases = lit "web" ∷ []; source_index = 0 } ∷ [];
}

networks-accepted :
    normalize_networks_with_issues true false (shared_network ∷ [])
    ≡ ok (shared_network ∷ [], some shared_plan)
unfolding normalize_networks_with_issues same
networks-accepted = refl

normalize_networks_with_issues-plan_example :
    (plan : NetworkPlan) × ((some shared_plan ≡ some plan)
      × ((names : AppResourceNames) (service_alias : Text)
          → (1 ≤ length (expected_networks plan names service_alias))
            × (length (expected_networks plan names service_alias) ≤ max_external_networks + 2)))
normalize_networks_with_issues-plan_example =
    normalize_networks_with_issues-plan true false (shared_network ∷ []) (shared_network ∷ [])
      (some shared_plan) networks-accepted

abbrev draft_input : DraftInput
draft_input = record {
  security_profile = none;
  display_name = lit "Web";
  discovery_image_ref = lit "ghcr.io/team/web:1";
  credential_ref = none;
  auto_deploy_enabled = false;
  auto_deploy_acknowledged = false;
  poll_interval_seconds = 300;
  stop_grace_period_seconds = 30;
  environment = environment;
  files = settings_file ∷ key_file ∷ [];
  ports = [];
  volumes = [];
  binds = [];
  owned_default_network = true;
  service_discovery_enabled = false;
  networks = shared_network ∷ [];
  health = HealthPolicy.running 15;
}

abbrev existing_secrets : ExistingSecrets
existing_secrets = record { environment = stored_tokens; files = [] }

abbrev no_file_system : FileSystem
no_file_system = record {
  is_symlink = λ path. none;
  canonicalize = λ path. none;
  directory = λ path. none;
}

abbrev plain_hashing : Hashing
plain_hashing = record {
  sha256 = λ value. value;
  hmac = λ key value. some (key ++ value);
  to_vec = λ canonical. some (lit "c");
}

abbrev draft_parts : DraftParts
draft_parts = record {
  public_environment = mode_entry ∷ [];
  secret_environment = stored_tokens;
  files = file_entries;
  public_files = public_contents;
  secret_files = secret_contents;
  networks = shared_network ∷ [];
}

abbrev hash_metadata : ConfigMetadata
hash_metadata =
    draft_metadata plain_hashing draft_input draft_parts ((lit "TOKEN", lit "6b733363726574") ∷ [])
      ((lit "key", lit "6b6b") ∷ [])

abbrev accepted_draft : NormalizedDraft
accepted_draft =
    finish_draft draft_input draft_parts (record hash_metadata { config_sha256 = lit "63" })

draft-accepted :
    normalize_draft_with_options no_file_system plain_hashing draft_input existing_secrets
      (lit "k")
      []
      true
    ≡ ok accepted_draft
unfolding normalize_draft_with_options contains strip_prefix rsplit_once split same join
draft-accepted = refl

normalize_draft-verify_example :
    verify_config_integrity plain_hashing accepted_draft.metadata accepted_draft.public_environment
      accepted_draft.public_files
      (stored accepted_draft)
      (lit "k")
    ≡ ok tt
normalize_draft-verify_example =
    normalize_draft-verify no_file_system plain_hashing draft_input existing_secrets (lit "k") []
      true accepted_draft draft-accepted

normalize_draft_sound_example :
    (files : List Entry) × ((accepted_draft.files ≡ map (λ (entry : Entry). entry.0) files)
      × IsDeployable draft_input accepted_draft.secret_environment files accepted_draft.public_files
          accepted_draft.secret_files)
normalize_draft_sound_example =
    normalize_draft_sound no_file_system plain_hashing draft_input existing_secrets (lit "k") []
      true accepted_draft draft-accepted
