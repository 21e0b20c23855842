-- ===== src/Registry/Identity/Observed.antt =====
-- Which observations of the engine an image identity matches (src/registry/image_identity.rs).
use solodock.Base.{
  ◌||◌, Option, Bool, err, Result, ◌≡◌, refl, Bool-cases, Result-cases, inl, inr, true, some, none,
  ok, arith, ◌&&◌, ◌⊎◌, sym, ap, ◌∙◌,
}
use solodock.Base.Text.{Text, same_iff, same, option_same_iff}
use solodock.Registry.Reference.{validate_digest}
use solodock.Registry.Reference.Digest.{validate_digest_iff, IsDigest}
use solodock.Registry.Identity.{
  is_ok, RegistryError, matches_descriptor, matches_manifest_descriptor, platform_eq,
  matches_engine_image_id, canonical, new, matches_observation, Platform, ImageIdentity,
  ManifestDescriptor,
}

abbrev of_ok {ℓ μ} : {E : Type μ} {A : Type ℓ} → A → Result E A → A
of_ok a (ok b) = b
of_ok a (err e) = a

same_refl : (s : Text) → same s s ≡ true
same_refl s = (same_iff s s).1 refl

platform_eq_refl : (p : Platform) → platform_eq p p ≡ true
platform_eq_refl p =
    rw (same_refl p.os, same_refl p.architecture, (option_same_iff p.variant p.variant).1 refl) refl

-- What `new` builds, and what it has checked.
new_sound :
    (manifest_digest config_digest : Text) (platform : Platform) (identity : ImageIdentity)
    → new manifest_digest config_digest platform ≡ ok identity
    → (validate_digest manifest_digest ≡ ok tt)
      × (validate_digest config_digest ≡ ok tt)
      × (canonical platform.os platform.architecture platform.variant ≡ ok identity.platform)
      × (identity.manifest_digest ≡ manifest_digest)
      × (identity.config_digest ≡ config_digest)
unfolding new
new_sound manifest_digest config_digest platform identity h =
    elim (Result-cases (validate_digest manifest_digest)) [
      | inr (e, b) ↦ let h' = rw (new, b) at h in cc
      | inl (u, a) ↦ elim (Result-cases (validate_digest config_digest)) [
        | inr (e, b) ↦ let h' = rw (new, a, b) at h in cc
        | inl (v, b) ↦
            elim (Result-cases (canonical platform.os platform.architecture platform.variant)) [
              | inr (e, c) ↦ let h' = rw (new, a, b, c) at h in cc
              | inl (q, c) ↦
                  let same_identity = rw (new, a, b, c) at h in
                  (
                    a,
                    b,
                    c ∙ ap (λ r. ok (of_ok identity r).platform) same_identity,
                    ap (λ r. (of_ok identity r).manifest_digest) (sym same_identity),
                    ap (λ r. (of_ok identity r).config_digest) (sym same_identity),
                  )
            ]
      ]
    ]

abbrev pub descriptor_of : Text → Platform → ManifestDescriptor
descriptor_of manifest_digest platform = record {
  digest = some manifest_digest;
  os = some platform.os;
  architecture = some platform.architecture;
  variant = platform.variant;
}

or_true : (b : Bool) → b || true ≡ true
or_true b = ground arith

-- The identity that `new` builds from two digests and a platform matches the engine's image id, be it
-- the config digest or the manifest digest, together with the descriptor that names the manifest
-- digest and the same platform.
pub new-matches_observation :
    (manifest_digest config_digest : Text) (platform : Platform) (identity : ImageIdentity)
    → new manifest_digest config_digest platform ≡ ok identity
    → (matches_observation identity
          (some config_digest)
          (some (descriptor_of manifest_digest platform))
        ≡ true)
      × (matches_observation identity
            (some manifest_digest)
            (some (descriptor_of manifest_digest platform))
          ≡ true)
unfolding matches_observation matches_engine_image_id matches_manifest_descriptor matches_descriptor
new-matches_observation manifest_digest config_digest platform identity h =
    let (a, b, c, m, d) = new_sound manifest_digest config_digest platform identity h in
    (
      rw
          (
            a,
            b,
            c,
            m,
            d,
            same_refl manifest_digest,
            same_refl config_digest,
            platform_eq_refl identity.platform,
          )
          refl,
      rw
          (
            a,
            c,
            m,
            d,
            same_refl manifest_digest,
            or_true (same manifest_digest config_digest),
            platform_eq_refl identity.platform,
          )
          refl,
    )

and_true : (a b : Bool) → a && b ≡ true → (a ≡ true) × (b ≡ true)
and_true a b h = ground arith

is_ok-ok : (r : Result RegistryError (Unit {0})) → is_ok r ≡ true → r ≡ ok tt
is_ok-ok (ok tt) h = refl
is_ok-ok (err e) h = cc

either_same : (v a b : Text) → same v a || same v b ≡ true → (v ≡ a) ⊎ (v ≡ b)
either_same v a b h = elim (Bool-cases (same v a)) [
  | inl t ↦ inl ((same_iff v a).0 t)
  | inr f ↦ inr ((same_iff v b).0 (rw f at h))
]

matches_engine_image_id_sound :
    (identity : ImageIdentity) (image : Option Text)
    → matches_engine_image_id identity image ≡ true
    → (value : Text) × (image ≡ some value)
      × IsDigest value
      × ((value ≡ identity.config_digest) ⊎ (value ≡ identity.manifest_digest))
unfolding matches_engine_image_id
matches_engine_image_id_sound identity none h = cc
matches_engine_image_id_sound identity (some value) h =
    let (valid, one) = and_true _ _ h in
    (
      value,
      refl,
      (validate_digest_iff value).0 (is_ok-ok (validate_digest value) valid),
      either_same value identity.config_digest identity.manifest_digest one,
    )

matches_descriptor_sound :
    (identity : ImageIdentity) (digest os architecture variant : Option Text)
    → matches_descriptor identity digest os architecture variant ≡ true
    → digest ≡ some identity.manifest_digest
unfolding matches_descriptor
matches_descriptor_sound identity none os architecture variant h = cc
matches_descriptor_sound identity (some digest) none architecture variant h = cc
matches_descriptor_sound identity (some digest) (some os) none variant h = cc
matches_descriptor_sound identity (some digest) (some os) (some architecture) variant h =
    ap some ((same_iff digest identity.manifest_digest).0 (and_true _ _ (and_true _ _ h).1).0)

-- An observation that an identity matches carries a valid digest as its image id, which is one of the
-- two digests of the identity, and its descriptor, where there is one, names the manifest digest.
pub matches_observation_sound :
    (identity : ImageIdentity) (image : Option Text) (descriptor : Option ManifestDescriptor)
    → matches_observation identity image descriptor ≡ true
    → ((value : Text) × (image ≡ some value)
        × IsDigest value
        × ((value ≡ identity.config_digest) ⊎ (value ≡ identity.manifest_digest)))
      × ((descriptor ≡ none)
          ⊎ ((d : ManifestDescriptor) × (descriptor ≡ some d)
              × (d.digest ≡ some identity.manifest_digest)))
unfolding matches_observation matches_manifest_descriptor
matches_observation_sound identity image none h =
    (matches_engine_image_id_sound identity image h, inl refl)
matches_observation_sound identity image (some value) h =
    let (left, right) = and_true _ _ h in
    (
      matches_engine_image_id_sound identity image left,
      inr (
        value,
        refl,
        matches_descriptor_sound identity value.digest value.os value.architecture value.variant
            right,
      ),
    )
