-- ===== src/Domain/Errors.antt =====
-- The errors of validation (src/domain/validation.rs). The texts that explain an issue to people are
-- left out.
use solodock.Base.{
  ◌≡◌, ℕ, zero, suc, ◌+◌, ◌/◌, ◌%◌, String, [], ◌∷◌, ◌++◌, ltb, if◌then◌else◌, Result, ok, err, ◌≡◌,
  ap,
}
use solodock.Base.Text.{Text, lit}

pub data DomainError : Type 0 where
  config_invalid config_quota_exceeded env_duplicate secret_operation_required : DomainError
  file_target_conflict bind_disabled bind_outside_allowed_root bind_symlink bind_changed :
      DomainError
  bind_source_ancestor_conflict bind_rw_ack_required port_conflict : DomainError
  feature_not_available internal : DomainError

unfoldable pub public_code : DomainError → String
public_code DomainError.config_quota_exceeded = "CONFIG_QUOTA_EXCEEDED"
public_code DomainError.env_duplicate = "ENV_DUPLICATE"
public_code DomainError.secret_operation_required = "SECRET_OPERATION_REQUIRED"
public_code DomainError.file_target_conflict = "FILE_TARGET_CONFLICT"
public_code DomainError.bind_disabled = "BIND_DISABLED"
public_code DomainError.bind_outside_allowed_root = "BIND_OUTSIDE_ALLOWED_ROOT"
public_code DomainError.bind_symlink = "BIND_SYMLINK"
public_code DomainError.bind_changed = "BIND_CHANGED"
public_code DomainError.bind_source_ancestor_conflict = "BIND_SOURCE_ANCESTOR_CONFLICT"
public_code DomainError.bind_rw_ack_required = "BIND_RW_ACK_REQUIRED"
public_code DomainError.port_conflict = "PORT_CONFLICT"
public_code DomainError.feature_not_available = "FEATURE_NOT_AVAILABLE"
public_code DomainError.config_invalid = "CONFIG_INVALID"
public_code DomainError.internal = "INTERNAL_ERROR"

-- The error, with the path and the code of its one issue.
pub record DraftValidationError : Type 0 where
  pub error : DomainError
  pub path : Text
  pub code : String

abbrev pub at : DomainError → Text → String → DraftValidationError
at error path code = record { error = error; path = path; code = code }

-- `map_err` to an issue.
abbrev pub at_path {ℓ} :
    {A : Type ℓ} → Text → String → Result DomainError A → Result DraftValidationError A
at_path path code (ok a) = ok a
at_path path code (err error) = err (at error path code)

-- A number as `format!` prints it. The fuel is more than the digits of any index.
unfoldable pub print_index : ℕ → ℕ → Text
print_index zero n = []
print_index (suc fuel) n =
    let rest = print_index fuel (n / 10) in
    if ltb n 10 then (n + b'0') ∷ [] else rest ++ (n % 10 + b'0') ∷ []

-- `format!("{list}[{index}]{field}")`.
unfoldable pub issue_path : String → ℕ → String → Text
unfolding print_index
issue_path list index field =
    lit list ++ (lit "[" ++ (print_index 20 index ++ (lit "]" ++ lit field)))

pub at_path-ok {ℓ} :
    {A : Type ℓ} (path : Text) (code : String) (r : Result DomainError A) (a : A)
    → at_path path code r ≡ ok a
    → r ≡ ok a
at_path-ok path code (ok b) a h = let e : b ≡ a = cc in ap ok e
at_path-ok path code (err error) a h = absurd cc
