-- ===== src/Registry/Reference.antt =====
-- Image references and digests (src/registry/reference.rs), over texts as bytes.
use solodock.Base.{
  ℕ, zero, suc, ◌+◌, ◌-◌, ◌≤◌, ◌<◌, ◌≡◌, ◌≢◌, ◌↔◌, refl, sym, ap, ◌∙◌, ◌⊎◌, inl, inr, Bool, true,
  false, not, ◌&&◌, ◌||◌, Option, none, some, List, [], ◌∷◌, ◌++◌, arith, ltb, leb, ◌==◌, ==_iff,
  if◌then◌else◌, is_some, option_eq, coalesce, Bool-cases, Option-cases, length, any, all, Result,
  ok, err, ensure, ok_or, ◌>>=◌, ◌>>◌, after, String,
}
use solodock.Base.Text.{
  is_uppercase, is_lower_hex, is_whitespace, is_control, contains, strip_prefix, is_empty, is_digit,
  split, rsplit_once, join, is_lowercase, is_alphanumeric, has_byte, same, Text, lit,
}
pub mod Digest

pub data RegistryError : Type 0 where
  reference_invalid digest_mismatch platform_not_found : RegistryError

pub record ImageReference : Type 0 where
  pub logical_registry : Text
  pub transport_registry : Text
  pub repository : Text
  pub tag : Text
  pub canonical_tagged_ref : Text
  pub docker_auth_key : Text

-- `check(…) else Err(ReferenceInvalid)`.
abbrev pub require : Bool → Result RegistryError (Unit {0})
require test = ensure test RegistryError.reference_invalid

-- @ $ { } ` \ " ' ? #
abbrev is_forbidden : ℕ → Bool
is_forbidden b = has_byte b (64 ∷ 36 ∷ 123 ∷ 125 ∷ 96 ∷ 92 ∷ 34 ∷ 39 ∷ 63 ∷ 35 ∷ [])

-- The tests on the whole text at the head of `ImageReference::parse`.
unfoldable pub is_plain : Text → Bool
is_plain value =
    not (is_empty value)
    && (leb (length value) 320
        && (not (any is_forbidden value)
            && (not (contains (lit "://") value)
                && not (any (λ b. is_control b || is_whitespace b) value))))

abbrev pub is_tag_byte : ℕ → Bool
is_tag_byte b = is_alphanumeric b || (b == b'_' || (b == b'.' || b == b'-'))

-- Not empty, 128 bytes at most, and `.` and `-` behind the first byte only.
unfoldable pub valid_tag : Text → Bool
valid_tag [] = false
valid_tag (b ∷ s) =
    leb (length (b ∷ s)) 128 && ((is_alphanumeric b || b == b'_') && all is_tag_byte s)

abbrev pub is_host_byte : ℕ → Bool
is_host_byte b = is_lowercase b || (is_digit b || (b == b'.' || b == b'-'))

unfoldable pub valid_port : Option Text → Bool
valid_port none = true
valid_port (some port) = not (is_empty port) && all is_digit port

-- `rsplit_once(':')`, with no port where there is no colon.
unfoldable pub host_port : Text → Text × Option Text
host_port value = elim (rsplit_once b':' value) [ none ↦ (value, none) | some (h, p) ↦ (h, some p) ]

unfoldable pub validate_registry : Text → Result RegistryError (Unit {0})
unfolding valid_port host_port
validate_registry value = do
  require (not (is_empty value) && (leb (length value) 255 && not (any is_uppercase value)))
  let (host, port) = host_port value
  require (not (is_empty host) && (all is_host_byte host && valid_port port))

abbrev pub is_repository_byte : ℕ → Bool
is_repository_byte b = is_lowercase b || (is_digit b || (b == b'.' || (b == b'_' || b == b'-')))

abbrev pub last_or : ℕ → Text → ℕ
last_or b [] = b
last_or b (c ∷ s) = last_or c s

unfoldable pub valid_component : Text → Bool
valid_component [] = false
valid_component (b ∷ s) =
    is_alphanumeric b && (is_alphanumeric (last_or b s) && all is_repository_byte (b ∷ s))

unfoldable pub validate_repository : Text → Result RegistryError (Unit {0})
unfolding valid_component
validate_repository value =
    let (first, others) = split b'/' value in
    require
      (not (is_empty value) && (leb (length value) 255 && all valid_component (first ∷ others)))

abbrev pub docker_io : Text
docker_io = lit "docker.io"

abbrev pub registry_1 : Text
registry_1 = lit "registry-1.docker.io"

abbrev pub is_docker_hub : Text → Bool
is_docker_hub registry = same registry docker_io || same registry (lit "index.docker.io")

abbrev pub library_slash : Text
library_slash = lit "library/"

-- The branch of `parse` in which the first part names a registry: the logical registry, the transport
-- registry and the repository.
unfoldable pub parse_registry : Text → Text → Result RegistryError (Text × Text × Text)
unfolding validate_registry validate_repository
parse_registry first others = do
  validate_registry first
  let rest =
      if is_docker_hub first && not (has_byte b'/' others) then library_slash ++ others else others
  validate_repository rest
  require (not (same first registry_1))
  ok (if is_docker_hub first then (docker_io, registry_1, rest) else (first, first, rest))

-- The other branch.
unfoldable pub parse_hub : Text → Result RegistryError (Text × Text × Text)
unfolding validate_repository
parse_hub rest = do
  validate_repository rest
  ok (docker_io, registry_1, if has_byte b'/' rest then rest else library_slash ++ rest)

abbrev pub names_registry : Text → Bool
names_registry first = has_byte b'.' first || (has_byte b':' first || same first (lit "localhost"))

abbrev pub join_rest : List Text → Text
join_rest [] = []
join_rest (part ∷ parts) = join b'/' part parts

unfoldable pub canonical_ref : Text → Text → Text → Text
canonical_ref registry repository tag = registry ++ b'/' ∷ repository ++ b':' ∷ tag

unfoldable pub parse : Text → Result RegistryError ImageReference
unfolding is_plain valid_tag parse_registry parse_hub canonical_ref
parse value = do
  require (is_plain value)
  (repository_part, tag) ← ok_or (rsplit_once b':' value) RegistryError.reference_invalid
  -- The last `/` stands behind the last `:`.
  require (not (has_byte b'/' tag))
  require (valid_tag tag)
  let (first, parts) = split b'/' repository_part
  (logical, transport, repository) ←
      if names_registry first
      then parse_registry first (join_rest parts)
      else parse_hub (join b'/' first parts)
  ok (record {
    logical_registry = logical;
    transport_registry = transport;
    repository = repository;
    tag = tag;
    canonical_tagged_ref = canonical_ref logical repository tag;
    docker_auth_key = if same logical docker_io then lit "https://index.docker.io/v1/" else logical;
  })

unfoldable pub validate_digest : Text → Result RegistryError (Unit {0})
validate_digest value = do
  hex ← ok_or (strip_prefix (lit "sha256:") value) RegistryError.digest_mismatch
  ensure (length hex == 64 && all is_lower_hex hex) RegistryError.digest_mismatch

unfoldable pub runnable : ImageReference → Text → Result RegistryError Text
unfolding validate_digest
runnable image digest = do
  validate_digest digest
  let prefix = image.logical_registry ++ b'/' ∷ image.repository
  ok (prefix ++ b'@' ∷ digest)

unfoldable pub validate_logical_registry : Text → Result RegistryError Text
unfolding validate_registry
validate_logical_registry value = do
  require (not (same value registry_1))
  validate_registry value
  ok (if is_docker_hub value then docker_io else value)
