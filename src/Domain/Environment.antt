-- ===== src/Domain/Environment.antt =====
-- The environment of an application: `normalize_environment` (src/domain/validation.rs,
-- src/domain/environment.rs). A `BTreeMap` is the list of its entries in the order of their keys.
use solodock.Domain.Sorting.{text_leb, sort_by_key, insert_by_key, has_text}
use solodock.Base.{
  ℕ, suc, ◌+◌, min, Bool, true, false, ◌&&◌, ◌||◌, not, ◌==◌, leb, ltb, Option, none, some, List,
  [], ◌∷◌, ◌++◌, length, any, all, map, is_some, Result, ok, err, ensure, ok_or, ◌>>=◌, ◌>>◌,
  if◌then◌else◌,
}
use solodock.Base.Text.{Text, lit, same}
use solodock.Domain.Errors.{DomainError, DraftValidationError, at, at_path, issue_path}
use solodock.Domain.Names.{validate_env_key, validate_text, validate_env_value}
pub mod Secrets

abbrev pub max_env_entries : ℕ
max_env_entries = 256

abbrev pub max_env_value_bytes : ℕ
max_env_value_bytes = 16384

abbrev pub max_env_total_bytes : ℕ
max_env_total_bytes = 262144

pub record PublicEnvInput : Type 0 where
  pub key : Text
  pub value : Text

pub data SecretOperation : Type 0 where
  keep : SecretOperation
  replace : Text → SecretOperation
  delete : SecretOperation

pub record SecretEnvInput : Type 0 where
  pub key : Text
  pub operation : SecretOperation

pub record EnvironmentInput : Type 0 where
  pub order : Option (List Text)
  pub public : List PublicEnvInput
  pub secrets : List SecretEnvInput

abbrev pub get_value : List (Text × Text) → Text → Option Text
get_value [] key = none
get_value ((k, v) ∷ rest) key = if same k key then some v else get_value rest key

-- `usize::saturating_add`, of 64 bits.
unfoldable pub saturating_add : ℕ → ℕ → ℕ
saturating_add a b = min (a + b) 18446744073709551615

-- The checks of a value that the request brings.
unfoldable pub check_value : Text → Text → Result DraftValidationError (Unit {0})
unfolding validate_text validate_env_value
check_value path value =
    at_path path "INVALID_ENV_VALUE" (validate_text value >> validate_env_value value)
    >> ensure (leb (length value) max_env_value_bytes)
        (at DomainError.config_quota_exceeded path "CONFIG_QUOTA_EXCEEDED")

unfoldable pub check_public :
    ℕ → List Text → PublicEnvInput → Result DraftValidationError (Unit {0})
unfolding validate_env_key check_value issue_path
check_public index keys entry =
    at_path (issue_path "environment.public" index ".key") "INVALID_ENV_KEY"
      (validate_env_key entry.key)
    >> (check_value (issue_path "environment.public" index ".value") entry.value
        >> ensure (not (has_text keys entry.key)) (
            at DomainError.env_duplicate (issue_path "environment.public" index ".key")
              "ENV_DUPLICATE"))

-- The loop over the public entries: the keys and the total size after them.
unfoldable pub check_publics :
    ℕ → List Text → ℕ → List PublicEnvInput → Result DraftValidationError (List Text × ℕ)
unfolding check_public saturating_add
check_publics index keys total [] = ok (keys, total)
check_publics index keys total (entry ∷ entries) =
    let rest =
      check_publics (suc index) (entry.key ∷ keys) (saturating_add total (length entry.value))
        entries in
    check_public index keys entry >> rest

abbrev pub is_delete : SecretOperation → Bool
is_delete SecretOperation.delete = true
is_delete _ = false

-- The value that the operation of a secret leaves.
unfoldable pub secret_value :
    ℕ → List (Text × Text) → Text → SecretOperation → Result DraftValidationError (Option Text)
unfolding check_value issue_path
secret_value index existing key SecretOperation.keep = do
  value ← ok_or (get_value existing key) (
      at DomainError.secret_operation_required (issue_path "environment.secrets" index ".operation")
        "SECRET_OPERATION_REQUIRED")
  ok (some value)
secret_value index existing key (SecretOperation.replace value) = do
  check_value (issue_path "environment.secrets" index ".value") value
  ok (some value)
secret_value index existing key SecretOperation.delete = do
  ensure (is_some (get_value existing key)) (
      at DomainError.secret_operation_required (issue_path "environment.secrets" index ".operation")
        "SECRET_OPERATION_REQUIRED")
  ok none

-- The checks of one secret before its operation.
unfoldable pub check_secret :
    ℕ → List Text → List Text → SecretEnvInput → Result DraftValidationError (Unit {0})
unfolding validate_env_key issue_path
check_secret index public_keys operations entry =
    at_path (issue_path "environment.secrets" index ".key") "INVALID_ENV_KEY"
      (validate_env_key entry.key)
    >> (ensure (not (has_text operations entry.key)) (
          at DomainError.env_duplicate (issue_path "environment.secrets" index ".key")
            "ENV_DUPLICATE")
        >> ensure (not (has_text public_keys entry.key) || is_delete entry.operation) (
            at DomainError.env_duplicate (issue_path "environment.secrets" index ".key")
              "ENV_DUPLICATE"))

-- One more secret, when its operation leaves a value.
abbrev pub add_secret : Text → Option Text → List (Text × Text) → List (Text × Text)
add_secret key none secrets = secrets
add_secret key (some value) secrets =
    insert_by_key (λ (entry : Text × Text). entry.0) (key, value) secrets

abbrev pub grown : ℕ → Option Text → ℕ
unfolding saturating_add
grown total none = total
grown total (some value) = saturating_add total (length value)

-- The loop over the secrets: their values, and the total size after them.
unfoldable pub check_secrets :
    ℕ
    → List (Text × Text)
    → List Text
    → List Text
    → ℕ
    → List SecretEnvInput
    → Result DraftValidationError (List (Text × Text) × ℕ)
unfolding check_secret secret_value insert_by_key text_leb
check_secrets index existing public_keys operations total [] = ok ([], total)
check_secrets index existing public_keys operations total (entry ∷ entries) = do
  check_secret index public_keys operations entry
  value ← secret_value index existing entry.key entry.operation
  (secrets, last) ←
      check_secrets (suc index) existing public_keys (entry.key ∷ operations) (grown total value)
        entries
  ok (add_secret entry.key value secrets, last)

unfoldable pub normalize_environment :
    EnvironmentInput
    → List (Text × Text)
    → Result DraftValidationError (List PublicEnvInput × List (Text × Text))
unfolding check_publics check_secrets sort_by_key
normalize_environment input existing = do
  ensure (leb (length input.public + length input.secrets) max_env_entries)
      (at DomainError.config_quota_exceeded (lit "environment") "CONFIG_QUOTA_EXCEEDED")
  (public_keys, public_total) ← check_publics 0 [] 0 input.public
  (secrets, total) ← check_secrets 0 existing public_keys [] public_total input.secrets
  ensure (all (λ (entry : Text × Text). any (λ s. same s.key entry.0) input.secrets) existing) (
      at DomainError.secret_operation_required (lit "environment.secrets")
        "SECRET_OPERATION_REQUIRED")
  ensure (leb total max_env_total_bytes)
      (at DomainError.config_quota_exceeded (lit "environment") "CONFIG_QUOTA_EXCEEDED")
  ok (sort_by_key (λ entry. entry.key) input.public, secrets)

-- The check of `environment.order` in `normalize_draft_with_options`: a permutation of the keys.
-- The keys of an accepted environment are distinct, so that their list has the length of their set.
unfoldable pub validate_order :
    Option (List Text)
    → List PublicEnvInput
    → List (Text × Text)
    → Result DraftValidationError (Unit {0})
validate_order none public secrets = ok tt
validate_order (some order) public secrets =
    let keys = map (λ entry. entry.key) public ++ map (λ (entry : Text × Text). entry.0) secrets in
    ensure
      ((length order == length keys) && (all (has_text keys) order && all (has_text order) keys))
      (at DomainError.config_invalid (lit "environment.order") "INVALID_ENV_ORDER")
