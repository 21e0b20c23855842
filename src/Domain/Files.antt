-- ===== src/Domain/Files.antt =====
-- The managed files of an application: `normalize_files` (src/domain/validation.rs,
-- src/domain/files.rs). A `BTreeMap` is the list of its entries in the order of their keys.
use solodock.Base.{
  ℕ, suc, Bool, true, false, ◌&&◌, ◌||◌, not, leb, Option, none, some, List, [], ◌∷◌, ◌++◌, length,
  any, all, is_some, Result, ok, err, ensure, ok_or, ◌>>=◌, ◌>>◌, if◌then◌else◌,
}
use solodock.Base.Text.{Text, lit, same}
use solodock.Domain.Errors.{DomainError, DraftValidationError, at, at_path, issue_path}
use solodock.Domain.Names.{validate_logical_name, validate_content}
use solodock.Domain.Paths.{validate_container_target}
use solodock.Domain.Mounts.{ManagedFileMetadata}
use solodock.Domain.Environment.{SecretOperation, get_value, saturating_add}
use solodock.Domain.Sorting.{sort_by_key, insert_by_key, has_text}
pub mod Placed
pub mod Accepted

abbrev pub max_files : ℕ
max_files = 32

abbrev pub max_file_bytes : ℕ
max_file_bytes = 262144

abbrev pub max_file_total_bytes : ℕ
max_file_total_bytes = 2097152

pub data ManagedFileContent : Type 0 where
  public : Text → ManagedFileContent
  secret : SecretOperation → ManagedFileContent

pub record ManagedFileInput : Type 0 where
  pub logical_name : Text
  pub target_path : Text
  pub sensitive : Bool
  pub readonly : Bool
  pub content : ManagedFileContent

-- The variables of the loop.
pub record FileState : Type 0 where
  pub final_names : List Text
  pub targets : List Text
  pub secret_operations : List Text
  pub public_names : List Text
  pub metadata : List (ManagedFileMetadata × ℕ)
  pub public_files : List (Text × Text)
  pub secret_files : List (Text × Text)
  pub total : ℕ

abbrev pub no_files : FileState
no_files = record {
  final_names = [];
  targets = [];
  secret_operations = [];
  public_names = [];
  metadata = [];
  public_files = [];
  secret_files = [];
  total = 0;
}

abbrev pub file_path : ℕ → Text
unfolding issue_path
file_path index = issue_path "files" index ""

abbrev pub file_conflict : ℕ → Text → DraftValidationError
unfolding issue_path
file_conflict index field =
    at DomainError.file_target_conflict (file_path index ++ field) "FILE_TARGET_CONFLICT"

-- The total after a value.
unfoldable pub check_file_quota : Text → ℕ → Result DomainError ℕ
unfolding saturating_add
check_file_quota value total =
    ensure (leb (length value) max_file_bytes) DomainError.config_quota_exceeded
    >> ok (saturating_add total (length value))

abbrev pub descriptor_of : ManagedFileInput → ManagedFileMetadata
descriptor_of item = record {
  logical_name = item.logical_name;
  target_path = item.target_path;
  sensitive = item.sensitive;
  readonly = true;
}

-- The checks of a file before its content.
unfoldable pub check_file : ℕ → ManagedFileInput → Result DraftValidationError (Unit {0})
unfolding validate_logical_name validate_container_target issue_path
check_file index item =
    at_path (file_path index ++ lit ".logical_name") "INVALID_FILE_NAME"
      (validate_logical_name item.logical_name)
    >> (at_path (file_path index ++ lit ".target_path") "INVALID_MOUNT_TARGET"
          (validate_container_target item.target_path)
        >> ensure item.readonly (
            at DomainError.config_invalid (file_path index ++ lit ".readonly") "READONLY_REQUIRED"))

-- The name and the target of a file are new.
unfoldable pub claim_file :
    ℕ → ManagedFileInput → FileState → Result DraftValidationError (Unit {0})
unfolding issue_path
claim_file index item state =
    ensure
      (not (
        has_text state.public_names item.logical_name
        || has_text state.final_names item.logical_name))
      (file_conflict index (lit ".logical_name"))
    >> ensure (not (has_text state.targets item.target_path))
        (file_conflict index (lit ".target_path"))

-- The state with a file that stays, before its content.
unfoldable pub place_file : ℕ → ManagedFileInput → ℕ → FileState → FileState
place_file index item total state = record state {
  final_names = item.logical_name ∷ state.final_names;
  targets = item.target_path ∷ state.targets;
  metadata = state.metadata ++ (descriptor_of item, index) ∷ [];
  total = total;
}

abbrev pub entry_key : Text × Text → Text
entry_key entry = entry.0

unfoldable pub place_public : ℕ → ManagedFileInput → Text → ℕ → FileState → FileState
unfolding place_file insert_by_key
place_public index item value total state = record (place_file index item total state) {
  public_names = item.logical_name ∷ state.public_names;
  public_files = insert_by_key entry_key (item.logical_name, value) state.public_files;
}

unfoldable pub place_secret : ℕ → ManagedFileInput → Text → ℕ → FileState → FileState
unfolding place_file insert_by_key
place_secret index item value total state = record (place_file index item total state) {
  secret_files = insert_by_key entry_key (item.logical_name, value) state.secret_files;
}

unfoldable pub check_new_content :
    ℕ → ManagedFileInput → Text → FileState → Result DraftValidationError (Unit {0})
unfolding claim_file validate_content issue_path
check_new_content index item value state = do
  claim_file index item state
  at_path (file_path index ++ lit ".content") "INVALID_FILE_CONTENT" (validate_content value)

unfoldable pub check_quota : ℕ → Text → FileState → Result DraftValidationError ℕ
unfolding check_file_quota issue_path
check_quota index value state =
    at_path (file_path index ++ lit ".content") "CONFIG_QUOTA_EXCEEDED"
      (check_file_quota value state.total)

unfoldable pub add_public :
    ℕ → ManagedFileInput → Text → FileState → Result DraftValidationError FileState
unfolding check_new_content check_quota place_public
add_public index item value state = do
  check_new_content index item value state
  total ← check_quota index value state
  ok (place_public index item value total state)

abbrev pub operation_required : ℕ → DraftValidationError
unfolding issue_path
operation_required index =
    at DomainError.secret_operation_required (file_path index ++ lit ".content")
      "SECRET_OPERATION_REQUIRED"

-- The operation on a secret file whose name has no operation before it.
unfoldable pub operate_secret :
    ℕ
    → List (Text × Text)
    → ManagedFileInput
    → SecretOperation
    → FileState
    → Result DraftValidationError FileState
unfolding claim_file check_new_content check_quota place_secret
operate_secret index existing item SecretOperation.keep state = do
  value ← ok_or (get_value existing item.logical_name) (operation_required index)
  claim_file index item state
  total ← check_quota index value state
  ok (place_secret index item value total state)
operate_secret index existing item (SecretOperation.replace value) state = do
  check_new_content index item value state
  total ← check_quota index value state
  ok (place_secret index item value total state)
operate_secret index existing item SecretOperation.delete state = do
  ensure (is_some (get_value existing item.logical_name)) (operation_required index)
  ok state

abbrev pub with_operation : Text → FileState → FileState
with_operation name state = record state { secret_operations = name ∷ state.secret_operations }

unfoldable pub add_content :
    ℕ
    → List (Text × Text)
    → ManagedFileInput
    → Bool
    → ManagedFileContent
    → FileState
    → Result DraftValidationError FileState
unfolding add_public operate_secret
add_content index existing item false (ManagedFileContent.public value) state =
    add_public index item value state
add_content index existing item true (ManagedFileContent.secret operation) state = do
  ensure (not (has_text state.secret_operations item.logical_name))
      (file_conflict index (lit ".logical_name"))
  operate_secret index existing item operation (with_operation item.logical_name state)
add_content index existing item _ _ state = err (
    at DomainError.config_invalid (file_path index ++ lit ".sensitive") "FILE_SENSITIVITY_MISMATCH")

unfoldable pub add_file :
    ℕ → List (Text × Text) → ManagedFileInput → FileState → Result DraftValidationError FileState
unfolding check_file add_content
add_file index existing item state = do
  check_file index item
  add_content index existing item item.sensitive item.content state

-- The loop over the files.
unfoldable pub add_files :
    ℕ
    → List (Text × Text)
    → List ManagedFileInput
    → FileState
    → Result DraftValidationError FileState
unfolding add_file
add_files index existing [] state = ok state
add_files index existing (item ∷ items) state = do
  next ← add_file index existing item state
  add_files (suc index) existing items next

-- The metadata with the indexes of their requests, the public and the secret contents.
unfoldable pub normalize_files :
    List ManagedFileInput
    → List (Text × Text)
    → Result DraftValidationError
        (List (ManagedFileMetadata × ℕ) × (List (Text × Text) × List (Text × Text)))
unfolding add_files sort_by_key
normalize_files input existing = do
  ensure (leb (length input) max_files)
      (at DomainError.config_quota_exceeded (lit "files") "CONFIG_QUOTA_EXCEEDED")
  state ← add_files 0 existing input no_files
  ensure (all (λ (entry : Text × Text). has_text state.secret_operations entry.0) existing)
      (at DomainError.secret_operation_required (lit "files") "SECRET_OPERATION_REQUIRED")
  ensure (leb state.total max_file_total_bytes)
      (at DomainError.config_quota_exceeded (lit "files") "CONFIG_QUOTA_EXCEEDED")
  ok (
    sort_by_key (λ (entry : ManagedFileMetadata × ℕ). entry.0.logical_name) state.metadata,
    (state.public_files, state.secret_files),
  )
