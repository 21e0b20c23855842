-- ===== src/Domain/Names.antt =====
-- The names that a configuration may use (src/domain/validation.rs, src/domain/networks.rs).
use solodock.Base.{
  ℕ, Bool, false, ◌&&◌, ◌||◌, not, ◌==◌, leb, [], ◌∷◌, length, all, ensure, Result, err, ◌>>◌,
  if◌then◌else◌, Option, none, some,
}
use solodock.Base.Text.{
  Text, lit, same, is_empty, is_digit, is_lowercase, is_uppercase, is_alphanumeric, is_control,
  has_byte,
}
use solodock.Domain.Errors.{DomainError}

-- `char::is_control` of some character: below 32, 127, or U+0080 to U+009F, which are two bytes.
unfoldable pub has_control : Text → Bool
has_control [] = false
has_control (b ∷ []) = is_control b
has_control (b ∷ c ∷ s) =
    let rest = has_control (c ∷ s) in
    is_control b || ((b == 194 && (leb 128 c && leb c 159)) || rest)

abbrev pub refuse_unless : Bool → Result DomainError (Unit {0})
refuse_unless test = ensure test DomainError.config_invalid

unfoldable pub validate_text : Text → Result DomainError (Unit {0})
unfolding has_control
validate_text value = refuse_unless (not (has_control value))

unfoldable pub validate_content : Text → Result DomainError (Unit {0})
validate_content value = refuse_unless (not (has_byte 0 value))

unfoldable pub validate_env_value : Text → Result DomainError (Unit {0})
validate_env_value value = refuse_unless (not (has_byte 10 value || has_byte 13 value))

-- The tests of the first and of the last byte, which the code makes on texts that are not empty.
abbrev pub first_is : (ℕ → Bool) → Text → Bool
first_is p [] = false
first_is p (b ∷ s) = p b

abbrev pub last_is : (ℕ → Bool) → Text → Bool
last_is p [] = false
last_is p (b ∷ []) = p b
last_is p (b ∷ c ∷ s) = last_is p (c ∷ s)

abbrev pub is_slug_byte : ℕ → Bool
is_slug_byte b = is_lowercase b || (is_digit b || b == b'-')

abbrev pub is_name_byte : ℕ → Bool
is_name_byte b = is_lowercase b || (is_digit b || (b == b'.' || (b == b'_' || b == b'-')))

abbrev pub is_docker_byte : ℕ → Bool
is_docker_byte b = is_alphanumeric b || (b == b'.' || (b == b'_' || b == b'-'))

-- The longest slug of a resource name schema.
unfoldable pub max_slug : ℕ → Option ℕ
max_slug schema = if schema == 1 then some 12 else if schema == 2 then some 20 else none

unfoldable pub validate_slug_for_resource_schema : Text → ℕ → Result DomainError (Unit {0})
unfolding max_slug
validate_slug_for_resource_schema value schema = elim (max_slug schema) [
  | none ↦ err DomainError.config_invalid
  | some longest ↦ refuse_unless (
      (not (is_empty value) && leb (length value) longest)
      && (all is_slug_byte value
          && (first_is is_alphanumeric value && last_is is_alphanumeric value)))
]

unfoldable pub validate_slug : Text → Result DomainError (Unit {0})
unfolding validate_slug_for_resource_schema
validate_slug value = validate_slug_for_resource_schema value 2

unfoldable pub validate_env_key : Text → Result DomainError (Unit {0})
validate_env_key value = refuse_unless (
    (not (is_empty value) && leb (length value) 128)
    && (first_is (λ b. (is_lowercase b || is_uppercase b) || b == b'_') value
        && all (λ b. is_alphanumeric b || b == b'_') value))

unfoldable pub validate_logical_name : Text → Result DomainError (Unit {0})
validate_logical_name value = refuse_unless (
    (not (is_empty value) && leb (length value) 64)
    && (not (same value (lit ".") || same value (lit "..")) && all is_name_byte value))

unfoldable pub validate_docker_name : Text → Result DomainError (Unit {0})
unfolding validate_text
validate_docker_name value = do
  validate_text value
  refuse_unless ((not (is_empty value) && leb (length value) 128) && all is_docker_byte value)

-- `validate_docker_name` of src/domain/networks.rs, in one condition.
unfoldable pub validate_network_name : Text → Result DomainError (Unit {0})
unfolding has_control
validate_network_name value = refuse_unless (
    (not (is_empty value) && leb (length value) 128)
    && (not (has_control value) && all is_docker_byte value))

unfoldable pub validate_alias : Text → Result DomainError (Unit {0})
validate_alias value = refuse_unless (
    (not (is_empty value) && leb (length value) 63)
    && (first_is (λ b. is_lowercase b || is_digit b) value
        && (last_is (λ b. is_lowercase b || is_digit b) value && all is_slug_byte value)))
