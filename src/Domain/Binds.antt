-- ===== src/Domain/Binds.antt =====
-- Bind mounts and their sources (src/domain/validation.rs). The file system is a parameter, as are the
-- allowed roots: absolute paths, given by their components.
use solodock.Base.{
  ℕ, suc, Bool, true, false, ◌&&◌, ◌||◌, not, ◌==◌, leb, List, [], ◌∷◌, ◌++◌, length, any, map,
  String, Option, none, some, Result, ok, err, ensure, ok_or, ◌>>=◌, ◌>>◌, if◌then◌else◌,
}
use solodock.Base.Table.{find_where}
use solodock.Base.Text.{Text, lit, same, is_empty}
use solodock.Domain.Errors.{DomainError, DraftValidationError, at, at_path, issue_path}
use solodock.Domain.Paths.{
  components, is_absolute, is_prefix, same_path, has_parent_dir, validate_container_target,
}
use solodock.Domain.Mounts.{BindMountInput}
pub mod Plan
pub mod Source

pub record BindIdentity : Type 0 where
  pub path : List Text
  pub device : ℕ
  pub inode : ℕ

pub record BindSafetySource : Type 0 where
  pub identity : BindIdentity
  pub readonly : Bool

-- What `std::fs` says of a path: whether it is a symbolic link, the canonical path, and the directory
-- behind a canonical path.
pub record FileSystem : Type 0 where
  pub is_symlink : List Text → Option Bool
  pub canonicalize : List Text → Option (List Text)
  pub directory : List Text → Option (Option (ℕ × ℕ))

abbrev pub sensitive_sources : List Text
sensitive_sources =
    lit "/etc"
    ∷ lit "/proc"
    ∷ lit "/sys"
    ∷ lit "/dev"
    ∷ lit "/run"
    ∷ lit "/var/run"
    ∷ lit "/var/lib/docker"
    ∷ []

-- The root itself, or a path at or below one of the others.
unfoldable pub is_sensitive : List Text → Bool
unfolding components is_prefix
is_sensitive source =
    is_empty source || any (λ sensitive. is_prefix (components sensitive) source) sensitive_sources

-- A path below another.
unfoldable pub is_below : List Text → List Text → Bool
unfolding same_path is_prefix
is_below path base = not (same_path path base) && is_prefix base path

unfoldable pub bind_sources_conflict : BindSafetySource → BindSafetySource → Bool
unfolding is_below
bind_sources_conflict left right =
    (not left.readonly && is_below right.identity.path left.identity.path)
    || (not right.readonly && is_below left.identity.path right.identity.path)

unfoldable pub validate_bind_plan :
    List BindSafetySource → List BindSafetySource → Result DomainError (Unit {0})
unfolding bind_sources_conflict
validate_bind_plan [] existing = ok tt
validate_bind_plan (left ∷ rest) existing =
    let others = validate_bind_plan rest existing in
    ensure
      (not (any (bind_sources_conflict left) rest || any (bind_sources_conflict left) existing))
      DomainError.bind_source_ancestor_conflict
    >> others

-- One component of the way: it is there, and is no symbolic link.
unfoldable pub check_link : Option Bool → Result DomainError (Unit {0})
check_link none = err DomainError.config_invalid
check_link (some true) = err DomainError.bind_symlink
check_link (some false) = ok tt

module _ (fs : FileSystem) where
  -- Every path on the way to the source, from the root on, is there and is no symbolic link.
  unfoldable pub check_links : List Text → List Text → Result DomainError (Unit {0})
  unfolding check_link
  check_links current [] = ok tt
  check_links current (part ∷ rest) =
      let others = check_links (current ++ part ∷ []) rest in
      check_link (fs.is_symlink (current ++ part ∷ [])) >> others

  -- The checks of the canonical paths.
  unfoldable pub identify : List Text → List Text → Result DomainError BindIdentity
  unfolding is_below
  identify canonical root = do
    ensure (is_below canonical root) DomainError.bind_outside_allowed_root
    found ← ok_or (fs.directory canonical) DomainError.config_invalid
    (device, inode) ← ok_or found DomainError.config_invalid
    ok (record { path = canonical; device = device; inode = inode })

  unfoldable pub validate_bind_source : Text → List (List Text) → Result DomainError BindIdentity
  unfolding has_parent_dir is_sensitive is_below check_links identify components
  validate_bind_source source allowed_roots = do
    ensure (is_absolute source && not (has_parent_dir source)) DomainError.bind_outside_allowed_root
    ensure (not (is_sensitive (components source))) DomainError.bind_outside_allowed_root
    root ←
        ok_or (find_where (is_below (components source)) allowed_roots)
          DomainError.bind_outside_allowed_root
    check_links [] (components source)
    canonical ← ok_or (fs.canonicalize (components source)) DomainError.config_invalid
    canonical_root ← ok_or (fs.canonicalize root) DomainError.config_invalid
    identify canonical canonical_root

  abbrev pub source_code : DomainError → String
  source_code DomainError.bind_disabled = "BIND_DISABLED"
  source_code DomainError.bind_outside_allowed_root = "BIND_OUTSIDE_ALLOWED_ROOT"
  source_code DomainError.bind_symlink = "BIND_SYMLINK"
  source_code _ = "BIND_SOURCE_INVALID"

  abbrev pub at_source :
      ℕ → Result DomainError BindIdentity → Result DraftValidationError BindIdentity
  unfolding issue_path
  at_source index (ok identity) = ok identity
  at_source index (err error) =
      err (at error (issue_path "binds" index ".source") (source_code error))

  unfoldable pub check_bind :
      ℕ → BindMountInput → List (List Text) → Result DraftValidationError BindIdentity
  unfolding validate_bind_source validate_container_target issue_path
  check_bind index bind allowed_roots = do
    at_path (issue_path "binds" index ".target_path") "INVALID_MOUNT_TARGET"
        (validate_container_target bind.target_path)
    ensure (bind.readonly || bind.acknowledge_non_rollbackable) (
        at DomainError.bind_rw_ack_required
          (issue_path "binds" index ".acknowledge_non_rollbackable") "BIND_RW_ACK_REQUIRED")
    at_source index (validate_bind_source bind.source allowed_roots)

  -- The identities of the binds, each with its access.
  unfoldable pub check_binds :
      ℕ
      → List BindMountInput
      → List (List Text)
      → Result DraftValidationError (List BindSafetySource)
  unfolding check_bind
  check_binds index [] allowed_roots = ok []
  check_binds index (bind ∷ binds) allowed_roots = do
    identity ← check_bind index bind allowed_roots
    others ← check_binds (suc index) binds allowed_roots
    ok (record { identity = identity; readonly = bind.readonly } ∷ others)

  abbrev pub identities : List BindSafetySource → List BindIdentity
  identities = map (λ source. source.identity)

  unfoldable pub validate_binds_detailed_with_options :
      List BindMountInput
      → List (List Text)
      → Bool
      → Result DraftValidationError (List BindIdentity)
  unfolding check_binds validate_bind_plan
  validate_binds_detailed_with_options binds allowed_roots enforce_bind_plan = do
    ensure (leb (length binds) 16)
        (at DomainError.config_quota_exceeded (lit "binds") "CONFIG_QUOTA_EXCEEDED")
    ensure (is_empty binds || not (is_empty allowed_roots))
        (at DomainError.bind_disabled (lit "binds") "BIND_DISABLED")
    planned ← check_binds 0 binds allowed_roots
    if enforce_bind_plan
        then at_path (lit "binds") "BIND_SOURCE_ANCESTOR_CONFLICT" (validate_bind_plan planned [])
        else ok tt
    ok (identities planned)

  abbrev pub identity_eq : BindIdentity → BindIdentity → Bool
  unfolding same_path
  identity_eq a b = same_path a.path b.path && (a.device == b.device && a.inode == b.inode)

  -- `revalidate_bind_identity`, where the path of the expected identity prints to `source`.
  unfoldable pub revalidate_bind_identity :
      BindIdentity → Text → List (List Text) → Result DomainError (Unit {0})
  unfolding validate_bind_source same_path
  revalidate_bind_identity expected source allowed_roots = do
    current ← validate_bind_source source allowed_roots
    ensure (identity_eq current expected) DomainError.bind_changed
