-- ===== src/Domain/Environment/Secrets.antt =====
-- What an accepted environment holds (src/domain/validation.rs).
use solodock.Domain.Environment.{
  max_env_entries, EnvironmentInput, normalize_environment, DomainError, at, validate_env_key,
  issue_path, at_path, check_public, get_value, SecretEnvInput, check_secrets, check_secret,
  check_publics, add_secret, is_delete, grown, max_env_total_bytes, SecretOperation, secret_value,
  saturating_add, PublicEnvInput,
}
use solodock.Base.{
  All-implies, sequence_iff, is_some, ℕ, suc, ◌+◌, ◌≤◌, true, false, not, ◌||◌, Option, none, some,
  List, [], ◌∷◌, ◌≡◌, refl, inl, inr, All, any, all, length, arith, ok, ensure, ensure_iff, bind-ok,
  Bool-cases, sym, ap, ◌∙◌, leb,
}
use solodock.Base.Text.{lit, Text, same}
use solodock.Domain.Sorting.{has_text}
use solodock.Domain.Sorting.Kept.{weigh, insert_by_key-weigh, insert_by_key-All}

abbrev pub key_of : Text × Text → Text
key_of entry = entry.0

-- The bytes of the values.
abbrev pub public_bytes : List PublicEnvInput → ℕ
public_bytes = weigh (λ entry. length entry.value)

abbrev pub secret_bytes : List (Text × Text) → ℕ
secret_bytes = weigh (λ entry. length entry.1)

-- A total below the limit has not saturated.
grown_le :
    (total : ℕ) (key : Text) (value : Option Text) (secrets : List (Text × Text)) (last : ℕ)
    → last ≤ max_env_total_bytes
    → grown total value + secret_bytes secrets ≤ last
    → total + secret_bytes (add_secret key value secrets) ≤ last
unfolding saturating_add
grown_le total key none secrets last le h = h
grown_le total key (some value) secrets last le h = omega (
  arith,
  insert_by_key-weigh (λ (entry : Text × Text). length entry.1) key_of (key, value) secrets,
)

kept_secret :
    (index : ℕ) (existing : List (Text × Text)) (key : Text) (operation : SecretOperation)
    (value : Text)
    → secret_value index existing key operation ≡ ok (some value)
    → is_delete operation ≡ false
unfolding secret_value
kept_secret index existing key SecretOperation.keep value h = refl
kept_secret index existing key (SecretOperation.replace v) value h = refl
kept_secret index existing key SecretOperation.delete value h =
    elim (Bool-cases (is_some (get_value existing key))) [
      | inl e ↦ let h' = rw e at h in absurd cc
      | inr e ↦ let h' = rw e at h in absurd cc
    ]

-- A secret that keeps a value after its checks is not the key of a public entry.
check_secret-public :
    (index : ℕ) (public_keys operations : List Text) (entry : SecretEnvInput)
    → check_secret index public_keys operations entry ≡ ok tt
    → is_delete entry.operation ≡ false
    → has_text public_keys entry.key ≡ false
unfolding check_secret
check_secret-public index public_keys operations entry h kept =
    let path = issue_path "environment.secrets" index ".key" in
    let (named, rest) =
      (sequence_iff (at_path path "INVALID_ENV_KEY" (validate_env_key entry.key)) _).0 h in
    let test =
      (sequence_iff
          (ensure (not (has_text operations entry.key))
            (at DomainError.env_duplicate path "ENV_DUPLICATE"))
          (ensure (not (has_text public_keys entry.key) || is_delete entry.operation)
            (at DomainError.env_duplicate path "ENV_DUPLICATE"))).0
        rest in
    ground (
      arith,
      ensure_iff (not (has_text public_keys entry.key) || is_delete entry.operation)
          (at DomainError.env_duplicate path "ENV_DUPLICATE"),
    )

check_publics-bytes :
    (index : ℕ) (keys : List Text) (total : ℕ) (entries : List PublicEnvInput) (keys' : List Text)
    (last : ℕ)
    → check_publics index keys total entries ≡ ok (keys', last)
    → last ≤ max_env_total_bytes
    → total + public_bytes entries ≤ last
unfolding check_publics
check_publics-bytes index keys total [] keys' last h le = ground arith
check_publics-bytes index keys total (entry ∷ entries) keys' last h le =
    let tail =
      check_publics-bytes (suc index) (entry.key ∷ keys) (saturating_add total (length entry.value))
        entries keys' last ((bind-ok (check_public index keys entry) _ _ h).2) le in
    ground arith

-- What passed when the loop passes its first secret.
check_secrets-first :
    (index : ℕ) (existing : List (Text × Text)) (public_keys operations : List Text) (total : ℕ)
    (entry : SecretEnvInput) (entries : List SecretEnvInput) (secrets : List (Text × Text))
    (last : ℕ)
    → check_secrets index existing public_keys operations total (entry ∷ entries)
      ≡ ok (secrets, last)
    → (check_secret index public_keys operations entry ≡ ok tt)
      × ((value : Option Text) × ((rest : List (Text × Text)) × ((secret_value index existing
                  entry.key entry.operation
                ≡ ok value)
              × ((check_secrets
                      (suc index)
                      existing
                      public_keys
                      (entry.key ∷ operations)
                      (grown total value)
                      entries
                    ≡ ok (rest, last))
                  × (secrets ≡ add_secret entry.key value rest)))))
unfolding check_secrets
check_secrets-first index existing public_keys operations total entry entries secrets last h =
    let (passed, checked, h1) = bind-ok (check_secret index public_keys operations entry) _ _ h in
    let (value, valued, h2) =
      bind-ok (secret_value index existing entry.key entry.operation) _ _ h1 in
    let (result, looped, h3) =
      bind-ok
        (check_secrets (suc index) existing public_keys (entry.key ∷ operations) (grown total value)
          entries)
        _ _ h2 in
    let kept : add_secret entry.key value result.0 ≡ secrets = cc in
    let total_kept : result.1 ≡ last = cc in
    (
      checked,
      (value, (result.0, (valued, (looped ∙ ap (λ l. ok (result.0, l)) total_kept, sym kept)))),
    )

check_secrets-bytes :
    (index : ℕ) (existing : List (Text × Text)) (public_keys operations : List Text) (total : ℕ)
    (entries : List SecretEnvInput) (secrets : List (Text × Text)) (last : ℕ)
    → check_secrets index existing public_keys operations total entries ≡ ok (secrets, last)
    → last ≤ max_env_total_bytes
    → total + secret_bytes secrets ≤ last
unfolding check_secrets
check_secrets-bytes index existing public_keys operations total [] secrets last h le = ground arith
check_secrets-bytes index existing public_keys operations total (entry ∷ entries) secrets last h
      le =
    let (checked, (value, (rest, (valued, (looped, e))))) =
      check_secrets-first index existing public_keys operations total entry entries secrets last
        h in
    let tail =
      check_secrets-bytes (suc index) existing public_keys (entry.key ∷ operations)
        (grown total value) entries rest last looped le in
    rw e (grown_le total entry.key value rest last le tail)

add_secret-All {κ} :
    (P : Text × Text → Type κ) (key : Text) (value : Option Text) (secrets : List (Text × Text))
    → ((v : Text) → value ≡ some v → P (key, v))
    → All P secrets
    → All P (add_secret key value secrets)
add_secret-All P key none secrets h hs = hs
add_secret-All P key (some v) secrets h hs =
    insert_by_key-All P key_of (key, v) secrets (h v refl) hs

check_secrets-public :
    (index : ℕ) (existing : List (Text × Text)) (public_keys operations : List Text) (total : ℕ)
    (entries : List SecretEnvInput) (secrets : List (Text × Text)) (last : ℕ)
    → check_secrets index existing public_keys operations total entries ≡ ok (secrets, last)
    → All (λ entry. has_text public_keys entry.0 ≡ false) secrets
unfolding check_secrets
check_secrets-public index existing public_keys operations total [] secrets last h =
    let e : [] ≡ secrets = cc in rw (sym e) tt
check_secrets-public index existing public_keys operations total (entry ∷ entries) secrets last h =
    let (checked, (value, (rest, (valued, (looped, e))))) =
      check_secrets-first index existing public_keys operations total entry entries secrets last
        h in
    rw e (
      add_secret-All _ entry.key value rest
        (λ v ev.
          check_secret-public index public_keys operations entry checked
            (kept_secret index existing entry.key entry.operation v (valued ∙ ap ok ev)))
        (check_secrets-public (suc index) existing public_keys (entry.key ∷ operations)
          (grown total value) entries rest last looped))

-- The keys that the loop over the public entries collects.
check_publics-keys :
    (index : ℕ) (keys : List Text) (total : ℕ) (entries : List PublicEnvInput) (keys' : List Text)
    (last : ℕ) (key : Text)
    → check_publics index keys total entries ≡ ok (keys', last)
    → has_text keys' key ≡ false
    → (has_text keys key ≡ false) × (any (λ entry. same key entry.key) entries ≡ false)
unfolding check_publics
check_publics-keys index keys total [] keys' last key h e =
    let same_keys : keys ≡ keys' = cc in (rw same_keys e, refl)
check_publics-keys index keys total (entry ∷ entries) keys' last key h e =
    let (first, rest) =
      check_publics-keys (suc index) (entry.key ∷ keys) (saturating_add total (length entry.value))
        entries keys' last key ((bind-ok (check_public index keys entry) _ _ h).2) e in
    ground arith

-- An accepted environment keeps to the limit of bytes, has no secret under the name of a public
-- entry, and brings an operation for each secret that was stored.
pub normalize_environment_sound :
    (input : EnvironmentInput) (existing : List (Text × Text)) (public : List PublicEnvInput)
    (secrets : List (Text × Text))
    → normalize_environment input existing ≡ ok (public, secrets)
    → (public_bytes input.public + secret_bytes secrets ≤ max_env_total_bytes)
      × (All (λ entry. any (λ p. same entry.0 p.key) input.public ≡ false) secrets
          × (all (λ (entry : Text × Text). any (λ s. same s.key entry.0) input.secrets) existing
              ≡ true))
unfolding normalize_environment
normalize_environment_sound input existing public secrets h =
    let quota = at DomainError.config_quota_exceeded (lit "environment") "CONFIG_QUOTA_EXCEEDED" in
    let answered =
      all (λ (entry : Text × Text). any (λ s. same s.key entry.0) input.secrets) existing in
    let unanswered =
      at DomainError.secret_operation_required (lit "environment.secrets")
        "SECRET_OPERATION_REQUIRED" in
    let (u, few, h1) =
      bind-ok (ensure (leb (length input.public + length input.secrets) max_env_entries) quota) _ _
        h in
    let (publics, h2, h3) = bind-ok (check_publics 0 [] 0 input.public) _ _ h1 in
    let (looped, h4, h5) =
      bind-ok (check_secrets 0 existing publics.0 [] publics.1 input.secrets) _ _ h3 in
    let (v, answers, h6) = bind-ok (ensure answered unanswered) _ _ h5 in
    let (w, small, h7) = bind-ok (ensure (leb looped.1 max_env_total_bytes) quota) _ _ h6 in
    let kept : looped.0 ≡ secrets = cc in
    let fits : looped.1 ≤ max_env_total_bytes =
      (let t = (ensure_iff (leb looped.1 max_env_total_bytes) quota).0 small in ground arith) in
    let secret_sum =
      check_secrets-bytes 0 existing publics.0 [] publics.1 input.secrets looped.0 looped.1 h4
        fits in
    let public_sum = check_publics-bytes 0 [] 0 input.public publics.0 publics.1 h2 in
    rw (sym kept) (
      (let a = public_sum (ground arith) in ground arith),
      (
        All-implies _ _ looped.0
            (λ entry e. (check_publics-keys 0 [] 0 input.public publics.0 publics.1 entry.0 h2 e).1)
            (check_secrets-public 0 existing publics.0 [] publics.1 input.secrets looped.0 looped.1
              h4),
        (ensure_iff answered unanswered).0 answers,
      ),
    )
