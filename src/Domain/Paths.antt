-- ===== src/Domain/Paths.antt =====
-- Absolute paths as `std::path::Path` reads them, and the targets of mounts (src/domain/validation.rs).
use solodock.Base.{
  Bool, true, false, ◌&&◌, ◌||◌, not, ◌==◌, leb, List, [], ◌∷◌, length, any, Result, ◌>>◌,
}
use solodock.Base.Table.{select_where}
use solodock.Base.Text.{Text, lit, same, is_empty, contains, split}
use solodock.Domain.Errors.{DomainError}
use solodock.Domain.Names.{validate_text, refuse_unless, first_is}

-- `components()` of an absolute path after its root: repeated separators and `.` drop out.
unfoldable pub components : Text → List Text
components path =
    let (first, rest) = split b'/' path in
    select_where (λ part. not (is_empty part || same part (lit "."))) (first ∷ rest)

abbrev pub is_absolute : Text → Bool
is_absolute = first_is (λ b. b == b'/')

-- `Path::starts_with` and `==` of absolute paths.
unfoldable pub is_prefix : List Text → List Text → Bool
is_prefix [] path = true
is_prefix (p ∷ ps) [] = false
is_prefix (p ∷ ps) (c ∷ cs) = same p c && is_prefix ps cs

abbrev pub path_starts_with : Text → Text → Bool
path_starts_with path base = is_prefix (components base) (components path)

unfoldable pub same_path : List Text → List Text → Bool
same_path [] [] = true
same_path (p ∷ ps) (c ∷ cs) = same p c && same_path ps cs
same_path _ _ = false

-- A component that is not a name. `.` is one at the start of a relative path only.
unfoldable pub has_parent_dir : Text → Bool
unfolding components
has_parent_dir path = any (λ part. same part (lit "..")) (components path)

abbrev pub blocked_targets : List Text
blocked_targets =
    lit "/proc"
    ∷ lit "/sys"
    ∷ lit "/dev"
    ∷ lit "/run/docker.sock"
    ∷ lit "/var/run/docker.sock"
    ∷ lit "/run"
    ∷ lit "/var/run"
    ∷ []

unfoldable pub validate_container_target : Text → Result DomainError (Unit {0})
unfolding components is_prefix has_parent_dir
validate_container_target value = do
  validate_text value
  refuse_unless (
      (leb (length value) 4096 && is_absolute value)
      && (not (same value (lit "/"))
          && (not (contains (lit "//") value) && not (has_parent_dir value))))
  refuse_unless (not (any (λ blocked. path_starts_with value blocked) blocked_targets))
