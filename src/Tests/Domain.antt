-- ===== src/Tests/Domain.antt =====
-- Validation of configurations (src/domain/) on small inputs.
use solodock.Domain.Paths.{same_path, is_prefix, has_parent_dir, components}
use solodock.Base.{◌≤◌, ◌≡◌, refl, ◌↔◌, true, false, some, List, [], ◌∷◌, ◌++◌, ok, err}
use solodock.Base.Text.{split, same, Text, lit}
use solodock.Deploy.Health.{HealthPolicy, health_deadline}
use solodock.Domain.Errors.{DomainError}
use solodock.Domain.Mounts.{
  BindMountInput, VolumeInput, ManagedFileMetadata, validate_mount_target_conflicts, file_targets,
  volume_targets, bind_targets,
}
use solodock.Domain.Mounts.Overlap.{validate_mount_target_conflicts_iff, Disjoint}
use solodock.Domain.Binds.{
  identify, check_link, check_links, is_sensitive, is_below, bind_sources_conflict, BindIdentity,
  BindSafetySource, FileSystem, validate_bind_source, validate_bind_plan,
}
use solodock.Domain.Binds.Plan.{validate_bind_plan_iff, IsSafePlan}
use solodock.Domain.Binds.Source.{validate_bind_source_sound, Contained}
use solodock.Domain.Limits.{validate_health, validate_health-health_deadline}

abbrev plain_files : FileSystem
plain_files = record {
  is_symlink = λ path. some false;
  canonicalize = λ path. some path;
  directory = λ path. some (some (1, 2));
}

abbrev data_identity : BindIdentity
data_identity = record { path = lit "srv" ∷ lit "data" ∷ []; device = 1; inode = 2 }

abbrev roots : List (List Text)
roots = (lit "srv" ∷ []) ∷ []

data-accepted : validate_bind_source plain_files (lit "/srv/data") roots ≡ ok data_identity
unfolding validate_bind_source components has_parent_dir is_sensitive is_prefix is_below same_path
    same split check_links check_link identify
data-accepted = refl

validate_bind_source_sound_example : Contained plain_files (lit "/srv/data") roots data_identity
validate_bind_source_sound_example =
    validate_bind_source_sound plain_files (lit "/srv/data") roots data_identity data-accepted

abbrev writable : BindSafetySource
writable = record { identity = data_identity; readonly = false }

abbrev nested : BindSafetySource
nested = record {
  identity = record { path = lit "srv" ∷ lit "data" ∷ lit "logs" ∷ []; device = 1; inode = 3 };
  readonly = true;
}

nested-refused :
    validate_bind_plan (writable ∷ nested ∷ []) [] ≡ err DomainError.bind_source_ancestor_conflict
unfolding validate_bind_plan bind_sources_conflict is_below is_prefix same_path same
nested-refused = refl

validate_bind_plan_iff_example :
    (validate_bind_plan (writable ∷ []) (nested ∷ []) ≡ ok tt)
    ↔ IsSafePlan (writable ∷ []) (nested ∷ [])
validate_bind_plan_iff_example = validate_bind_plan_iff (writable ∷ []) (nested ∷ [])

abbrev config_file : ManagedFileMetadata
config_file = record {
  logical_name = lit "app.conf";
  target_path = lit "/etc/app.conf";
  sensitive = false;
  readonly = true;
}

abbrev data_volume : VolumeInput
data_volume = VolumeInput.owned (lit "data") (lit "/var/data")

abbrev logs_bind : BindMountInput
logs_bind = record {
  source = lit "/srv/logs";
  target_path = lit "/var/data/logs";
  readonly = true;
  acknowledge_non_rollbackable = false;
}

validate_mount_target_conflicts_iff_example :
    (validate_mount_target_conflicts ((config_file, 0) ∷ []) (data_volume ∷ []) (logs_bind ∷ [])
      ≡ ok tt)
    ↔ Disjoint (
        file_targets ((config_file, 0) ∷ [])
        ++ (volume_targets 0 (data_volume ∷ []) ++ bind_targets 0 (logs_bind ∷ [])))
validate_mount_target_conflicts_iff_example =
    validate_mount_target_conflicts_iff ((config_file, 0) ∷ []) (data_volume ∷ []) (logs_bind ∷ [])

window-accepted : validate_health (HealthPolicy.running 15) ≡ ok tt
unfolding validate_health
window-accepted = refl

validate_health-health_deadline_example : health_deadline (HealthPolicy.running 15) ≤ 3910
validate_health-health_deadline_example =
    validate_health-health_deadline (HealthPolicy.running 15) window-accepted
