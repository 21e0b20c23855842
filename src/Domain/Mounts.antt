-- ===== src/Domain/Mounts.antt =====
-- Volumes and the targets of mounts (src/domain/validation.rs, src/domain/mounts.rs,
-- src/domain/files.rs).
use solodock.Base.{
  ℕ, suc, Bool, true, false, ◌&&◌, ◌||◌, not, ◌==◌, leb, List, [], ◌∷◌, ◌++◌, length, any, map,
  String, Result, ok, err, ensure, ◌>>=◌, ◌>>◌, if◌then◌else◌,
}
use solodock.Base.Text.{Text, lit, same}
use solodock.Domain.Errors.{DomainError, DraftValidationError, at, at_path, issue_path}
use solodock.Domain.Names.{validate_logical_name, validate_docker_name}
use solodock.Domain.Paths.{components, is_prefix, validate_container_target}
pub mod Overlap

pub data VolumeInput : Type 0 where
  owned : Text → Text → VolumeInput
  external : Text → Text → VolumeInput

abbrev pub target_path : VolumeInput → Text
target_path (VolumeInput.owned logical_name target) = target
target_path (VolumeInput.external name target) = target

abbrev pub volume_name : VolumeInput → Text
volume_name (VolumeInput.owned logical_name target) = logical_name
volume_name (VolumeInput.external name target) = name

pub record BindMountInput : Type 0 where
  pub source : Text
  pub target_path : Text
  pub readonly : Bool
  pub acknowledge_non_rollbackable : Bool

pub record ManagedFileMetadata : Type 0 where
  pub logical_name : Text
  pub target_path : Text
  pub sensitive : Bool
  pub readonly : Bool

-- The name of a volume, by its kind, and the field of an issue with it.
unfoldable pub check_volume_name : ℕ → VolumeInput → Result DraftValidationError (Unit {0})
unfolding validate_logical_name validate_docker_name issue_path
check_volume_name index (VolumeInput.owned logical_name target) =
    at_path (issue_path "volumes" index ".logical_name") "INVALID_VALUE"
      (validate_logical_name logical_name)
check_volume_name index (VolumeInput.external name target) =
    at_path (issue_path "volumes" index ".name") "INVALID_VALUE" (validate_docker_name name)

abbrev pub name_field : VolumeInput → String
name_field (VolumeInput.owned logical_name target) = ".logical_name"
name_field (VolumeInput.external name target) = ".name"

unfoldable pub check_volumes :
    ℕ → List Text → List VolumeInput → Result DraftValidationError (Unit {0})
unfolding check_volume_name validate_container_target issue_path
check_volumes index names [] = ok tt
check_volumes index names (volume ∷ volumes) =
    let rest = check_volumes (suc index) (volume_name volume ∷ names) volumes in
    at_path (issue_path "volumes" index ".target_path") "INVALID_MOUNT_TARGET"
      (validate_container_target (target_path volume))
    >> (check_volume_name index volume
        >> (ensure (not (any (same (volume_name volume)) names)) (
              at DomainError.config_invalid (issue_path "volumes" index (name_field volume))
                "VOLUME_DUPLICATE")
            >> rest))

unfoldable pub validate_volumes : List VolumeInput → Result DraftValidationError (Unit {0})
unfolding check_volumes
validate_volumes volumes = do
  ensure (leb (length volumes) 16)
      (at DomainError.config_quota_exceeded (lit "volumes") "CONFIG_QUOTA_EXCEEDED")
  check_volumes 0 [] volumes

-- The chain of the targets of files, volumes and binds, each with the path of an issue.
unfoldable pub file_targets : List (ManagedFileMetadata × ℕ) → List (Text × Text)
unfolding issue_path
file_targets [] = []
file_targets ((file, request_index) ∷ rest) =
    (issue_path "files" request_index ".target_path", file.target_path) ∷ file_targets rest

unfoldable pub volume_targets : ℕ → List VolumeInput → List (Text × Text)
unfolding issue_path
volume_targets index [] = []
volume_targets index (volume ∷ rest) =
    (issue_path "volumes" index ".target_path", target_path volume)
    ∷ volume_targets (suc index) rest

unfoldable pub bind_targets : ℕ → List BindMountInput → List (Text × Text)
unfolding issue_path
bind_targets index [] = []
bind_targets index (bind ∷ rest) =
    (issue_path "binds" index ".target_path", bind.target_path) ∷ bind_targets (suc index) rest

-- `left == right || left.starts_with(right) || right.starts_with(left)`: equal paths start with each
-- other.
unfoldable pub overlaps : Text → Text → Bool
unfolding components is_prefix
overlaps left right =
    is_prefix (components right) (components left) || is_prefix (components left) (components right)

unfoldable pub check_against : Text → List (Text × Text) → Result DraftValidationError (Unit {0})
unfolding overlaps
check_against left [] = ok tt
check_against left ((path, right) ∷ rest) =
    let others = check_against left rest in
    ensure (not (overlaps left right))
      (at DomainError.file_target_conflict path "FILE_TARGET_CONFLICT")
    >> others

unfoldable pub check_targets : List (Text × Text) → Result DraftValidationError (Unit {0})
unfolding check_against
check_targets [] = ok tt
check_targets ((path, left) ∷ rest) =
    let others = check_targets rest in check_against left rest >> others

unfoldable pub validate_mount_target_conflicts :
    List (ManagedFileMetadata × ℕ)
    → List VolumeInput
    → List BindMountInput
    → Result DraftValidationError (Unit {0})
unfolding check_targets file_targets volume_targets bind_targets
validate_mount_target_conflicts files volumes binds =
    check_targets (file_targets files ++ (volume_targets 0 volumes ++ bind_targets 0 binds))
