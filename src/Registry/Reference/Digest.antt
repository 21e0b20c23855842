-- ===== src/Registry/Reference/Digest.antt =====
-- What `validate_digest` accepts (src/registry/reference.rs).
use solodock.Base.{
  ◌&&◌, ◌==◌, ◌≡◌, refl, ◌↔◌, Bool-cases, Option-cases, inl, inr, true, some, ok, arith, length,
  ◌++◌, all,
}
use solodock.Base.Text.{
  strip_prefix, Text, lit, is_lower_hex, strip_prefix_sound, strip_prefix-append,
}
use solodock.Registry.Reference.{validate_digest}

-- `sha256:` and 64 lowercase hexadecimal digits.
abbrev pub IsDigest : Text → Type 0
IsDigest value =
    (hex : Text) × (value ≡ lit "sha256:" ++ hex)
    × (length hex ≡ 64)
    × (all is_lower_hex hex ≡ true)

accepted :
    (value hex : Text)
    → strip_prefix (lit "sha256:") value ≡ some hex
    → validate_digest value ≡ ok tt
    → IsDigest value
unfolding validate_digest
accepted value hex e h =
    let test = length hex == 64 && all is_lower_hex hex in
    elim (Bool-cases test) [
      | inl t ↦ (hex, strip_prefix_sound (lit "sha256:") value hex e, ground arith, ground arith)
      | inr f ↦ let h' = rw (validate_digest, e, f) at h in cc
    ]

-- A text is accepted as a digest exactly when it is `sha256:` and 64 lowercase hexadecimal digits.
pub validate_digest_iff : (value : Text) → (validate_digest value ≡ ok tt) ↔ IsDigest value
unfolding validate_digest
validate_digest_iff value = (
  λ h. elim (Option-cases (strip_prefix (lit "sha256:") value)) [
    | inl e ↦ let h' = rw (validate_digest, e) at h in cc
    | inr (hex, e) ↦ accepted value hex e h
  ],
  λ (hex, e, n, h). rw (e, validate_digest, strip_prefix-append (lit "sha256:") hex, n, h) refl,
)
