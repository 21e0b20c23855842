-- ===== src/Registry/Identity.antt =====
-- Platforms (src/registry/client.rs) and image identities (src/registry/image_identity.rs).
use solodock.Base.{
  ℕ, zero, suc, ◌+◌, ◌-◌, ◌≤◌, ◌<◌, ◌≡◌, ◌≢◌, ◌↔◌, refl, sym, ap, ◌∙◌, ◌⊎◌, inl, inr, Bool, true,
  false, not, ◌&&◌, ◌||◌, Option, none, some, List, [], ◌∷◌, ◌++◌, arith, ltb, leb, ◌==◌, ==_iff,
  if◌then◌else◌, is_some, option_eq, coalesce, Bool-cases, Option-cases, length, any, all, Result,
  ok, err, ensure, ok_or, ◌>>=◌, ◌>>◌, after, String,
}
use solodock.Base.Text.{to_lower, same, Text, lit}
use solodock.Registry.Reference.{RegistryError, validate_digest}
pub mod Observed

pub record Platform : Type 0 where
  pub os : Text
  pub architecture : Text
  pub variant : Option Text

-- The architecture, and the variant that its name implies.
unfoldable pub canonical_architecture : Text → Result RegistryError (Text × Option Text)
canonical_architecture raw =
    if same raw (lit "amd64") || (same raw (lit "x86_64") || same raw (lit "x86-64"))
    then ok (lit "amd64", none)
    else if same raw (lit "arm64") || same raw (lit "aarch64")
    then ok (lit "arm64", some (lit "v8"))
    else if same raw (lit "armv7") || (same raw (lit "armv7l") || same raw (lit "armhf"))
    then ok (lit "arm", some (lit "v7"))
    else if same raw (lit "arm")
    then ok (lit "arm", none)
    else err RegistryError.platform_not_found

-- `filter(|value| !value.is_empty())`.
abbrev non_empty : Option Text → Option Text
non_empty none = none
non_empty (some []) = none
non_empty (some (b ∷ s)) = some (b ∷ s)

abbrev lower_option : Option Text → Option Text
lower_option none = none
lower_option (some s) = some (to_lower s)

-- The last `match` of `Platform::canonical`.
unfoldable pub canonical_variant : Text → Option Text → Result RegistryError (Option Text)
canonical_variant architecture none =
    if same architecture (lit "amd64")
    then ok none
    else if same architecture (lit "arm64")
    then ok (some (lit "v8"))
    else err RegistryError.platform_not_found
canonical_variant architecture (some variant) =
    if same architecture (lit "arm64") && same variant (lit "v8")
    then ok (some (lit "v8"))
    else if same architecture (lit "arm") && (same variant (lit "v7") || same variant (lit "7"))
    then ok (some (lit "v7"))
    else if same architecture (lit "arm") && (same variant (lit "v6") || same variant (lit "6"))
    then ok (some (lit "v6"))
    else err RegistryError.platform_not_found

unfoldable pub canonical : Text → Text → Option Text → Result RegistryError Platform
unfolding canonical_architecture canonical_variant
canonical os architecture variant = do
  ensure (same (to_lower os) (lit "linux")) RegistryError.platform_not_found
  (arch, inferred) ← canonical_architecture (to_lower architecture)
  chosen ← canonical_variant arch (lower_option (coalesce (non_empty variant) inferred))
  ok (record { os = to_lower os; architecture = arch; variant = chosen })

abbrev pub platform_eq : Platform → Platform → Bool
platform_eq a b =
    same a.os b.os && (same a.architecture b.architecture && option_eq same a.variant b.variant)

pub record ImageIdentity : Type 0 where
  pub manifest_digest : Text
  pub config_digest : Text
  pub platform : Platform

pub record ManifestDescriptor : Type 0 where
  pub digest : Option Text
  pub os : Option Text
  pub architecture : Option Text
  pub variant : Option Text

unfoldable pub new : Text → Text → Platform → Result RegistryError ImageIdentity
unfolding canonical validate_digest
new manifest_digest config_digest platform = do
  validate_digest manifest_digest
  validate_digest config_digest
  normal ← canonical platform.os platform.architecture platform.variant
  ok (record {
    manifest_digest = manifest_digest;
    config_digest = config_digest;
    platform = normal;
  })

abbrev pub is_ok {ℓ μ} : {E : Type μ} {A : Type ℓ} → Result E A → Bool
is_ok (ok a) = true
is_ok (err e) = false

unfoldable pub matches_engine_image_id : ImageIdentity → Option Text → Bool
matches_engine_image_id identity none = false
matches_engine_image_id identity (some value) =
    is_ok (validate_digest value)
    && (same value identity.config_digest || same value identity.manifest_digest)

abbrev pub matches_platform : Platform → Result RegistryError Platform → Bool
matches_platform platform (ok p) = platform_eq p platform
matches_platform platform (err e) = false

unfoldable pub matches_descriptor :
    ImageIdentity → Option Text → Option Text → Option Text → Option Text → Bool
matches_descriptor identity (some digest) (some os) (some architecture) variant =
    is_ok (validate_digest digest)
    && (same digest identity.manifest_digest
        && matches_platform identity.platform (canonical os architecture variant))
matches_descriptor identity _ _ _ variant = false

unfoldable pub matches_manifest_descriptor : ImageIdentity → ManifestDescriptor → Bool
unfolding matches_descriptor
matches_manifest_descriptor identity d =
    matches_descriptor identity d.digest d.os d.architecture d.variant

unfoldable pub matches_observation : ImageIdentity → Option Text → Option ManifestDescriptor → Bool
unfolding matches_engine_image_id matches_manifest_descriptor
matches_observation identity engine_image_id none = matches_engine_image_id identity engine_image_id
matches_observation identity engine_image_id (some value) =
    matches_engine_image_id identity engine_image_id && matches_manifest_descriptor identity value
