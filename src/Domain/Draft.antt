-- ===== src/Domain/Draft.antt =====
-- The draft of an application: its checks before the parts (src/domain/validation.rs,
-- src/domain/application.rs).
use solodock.Base.{
  ℕ, suc, ◌+◌, Bool, true, false, ◌&&◌, ◌||◌, not, ◌==◌, leb, ltb, Option, none, some, List, [],
  ◌∷◌, ◌++◌, length, all, Result, ok, err, ensure, ◌>>=◌, ◌>>◌, if◌then◌else◌,
}
use solodock.Base.Text.{Text, lit, same, is_empty, is_digit, is_lowercase}
use solodock.Database.{Uuid}
use solodock.Registry.Reference.{parse}
use solodock.Deploy.Health.{HealthPolicy}
use solodock.Domain.Errors.{DomainError, DraftValidationError, at, at_path}
use solodock.Domain.Names.{validate_text, refuse_unless, first_is}
use solodock.Domain.Ports.{PortInput}
use solodock.Domain.Mounts.{VolumeInput, BindMountInput}
use solodock.Domain.Limits.{validate_intervals}
use solodock.Domain.Environment.{EnvironmentInput}
use solodock.Domain.Files.{ManagedFileInput}
use solodock.Domain.Networks.{NetworkInput}
pub mod Integrity
pub mod Parts
pub mod Normalize
pub mod Composed
pub mod Deployable

pub record DraftInput : Type 0 where
  pub security_profile : Option Text
  pub display_name : Text
  pub discovery_image_ref : Text
  pub credential_ref : Option Uuid
  pub auto_deploy_enabled : Bool
  pub auto_deploy_acknowledged : Bool
  pub poll_interval_seconds : ℕ
  pub stop_grace_period_seconds : ℕ
  pub environment : EnvironmentInput
  pub files : List ManagedFileInput
  pub ports : List PortInput
  pub volumes : List VolumeInput
  pub binds : List BindMountInput
  pub owned_default_network : Bool
  pub service_discovery_enabled : Bool
  pub networks : List NetworkInput
  pub health : HealthPolicy

-- The contents of the secrets that are stored.
pub record ExistingSecrets : Type 0 where
  pub environment : List (Text × Text)
  pub files : List (Text × Text)

-- `chars().count()` of UTF-8: the bytes that begin a character.
unfoldable pub char_count : Text → ℕ
char_count [] = 0
char_count (b ∷ s) = let rest = char_count s in if leb 128 b && ltb b 192 then rest else suc rest

-- `char::is_whitespace`, of a character of one, of two or of three bytes.
abbrev pub is_space : ℕ → Bool
is_space b = (leb 9 b && leb b 13) || b == 32

abbrev pub is_space_pair : ℕ → ℕ → Bool
is_space_pair b c = b == 194 && (c == 133 || c == 160)

abbrev pub is_space_triple : ℕ → ℕ → ℕ → Bool
is_space_triple b c d =
    (b == 225 && (c == 154 && d == 128))
    || ((b == 226
          && ((c == 128 && ((leb 128 d && leb d 138) || (d == 168 || (d == 169 || d == 175))))
              || (c == 129 && d == 159)))
        || (b == 227 && (c == 128 && d == 128)))

-- The first character of a text is white space.
unfoldable pub starts_with_space : Text → Bool
starts_with_space [] = false
starts_with_space (b ∷ []) = is_space b
starts_with_space (b ∷ c ∷ []) = is_space b || is_space_pair b c
starts_with_space (b ∷ c ∷ d ∷ s) = is_space b || (is_space_pair b c || is_space_triple b c d)

-- The last character of a text is white space.
unfoldable pub ends_with_space : Text → Bool
ends_with_space [] = false
ends_with_space (b ∷ []) = is_space b
ends_with_space (b ∷ c ∷ []) = is_space c || is_space_pair b c
ends_with_space (b ∷ c ∷ d ∷ []) = is_space d || (is_space_pair c d || is_space_triple b c d)
ends_with_space (b ∷ c ∷ d ∷ e ∷ s) = ends_with_space (c ∷ d ∷ e ∷ s)

-- `value.trim() != value` holds where white space starts or ends the value.
unfoldable pub validate_display_name : Text → Result DomainError (Unit {0})
unfolding validate_text char_count starts_with_space ends_with_space
validate_display_name value = do
  validate_text value
  refuse_unless (
      not (starts_with_space value || ends_with_space value)
      && (leb 1 (char_count value) && leb (char_count value) 80))

unfoldable pub validate_discovery_image : Text → Result DomainError (Unit {0})
unfolding parse
validate_discovery_image value = elim (parse value) [
  | ok reference ↦ ok tt
  | err e ↦ err DomainError.config_invalid
]

abbrev pub is_profile : Text → Bool
is_profile profile =
    (not (is_empty profile) && leb (length profile) 48)
    && (first_is is_lowercase profile
        && (all (λ b. is_lowercase b || (is_digit b || b == b'-')) profile
            && not (same profile (lit "unconfined"))))

unfoldable pub validate_profile : Option Text → Result DraftValidationError (Unit {0})
validate_profile none = ok tt
validate_profile (some profile) =
    ensure (is_profile profile)
      (at DomainError.config_invalid (lit "security_profile") "INVALID_VALUE")

-- The checks of `normalize_draft_with_options` before the parts of the draft.
unfoldable pub check_draft : DraftInput → Result DraftValidationError (Unit {0})
unfolding validate_profile validate_display_name validate_discovery_image validate_intervals
check_draft input = do
  validate_profile input.security_profile
  at_path (lit "display_name") "INVALID_VALUE" (validate_display_name input.display_name)
  at_path (lit "discovery_image_ref") "INVALID_IMAGE_REFERENCE"
      (validate_discovery_image input.discovery_image_ref)
  validate_intervals input.poll_interval_seconds input.stop_grace_period_seconds
