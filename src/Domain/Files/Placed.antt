-- ===== src/Domain/Files/Placed.antt =====
-- Files with a name and a target of their own, and the bytes counted so far (src/domain/validation.rs).
use solodock.Base.{
  ℕ, ◌+◌, ◌≤◌, true, false, List, [], ◌∷◌, ◌++◌, ◌≡◌, refl, inl, inr, All, All-implies, All-append,
  arith, length, leb, ok, ensure, ensure_iff, sequence_iff, bind-ok, Bool-cases, both_false,
  not-true,
}
use solodock.Base.Text.{Text, lit, same, same_iff, same_refl}
use solodock.Domain.Errors.{at_path-ok, DomainError, at_path}
use solodock.Domain.Paths.{validate_container_target}
use solodock.Domain.Mounts.{ManagedFileMetadata}
use solodock.Domain.Environment.{saturating_add}
use solodock.Domain.Sorting.{has_text}
use solodock.Domain.Sorting.Kept.{weigh, insert_by_key-weigh, Pairwise, Pairwise-append_last}
use solodock.Domain.Files.{
  max_file_bytes, validate_logical_name, ManagedFileInput, FileState, max_file_total_bytes,
  file_path, check_file_quota, descriptor_of, check_file, claim_file, place_file, place_public,
  place_secret, check_quota, entry_key,
}

abbrev pub Entry : Type 0
Entry = ManagedFileMetadata × ℕ

-- A file that a container may have: read-only, at a safe target.
abbrev pub IsMountable : Entry → Type 0
IsMountable entry =
    (validate_container_target entry.0.target_path ≡ ok tt) × (entry.0.readonly ≡ true)

-- Two files with other names and other targets.
abbrev pub Differ : Entry → Entry → Type 0
Differ left right =
    (same left.0.logical_name right.0.logical_name ≡ false)
    × (same left.0.target_path right.0.target_path ≡ false)

-- The names and the targets of the files so far are remembered.
abbrev pub Remembers : FileState → Entry → Type 0
Remembers state entry =
    (has_text state.final_names entry.0.logical_name ≡ true)
    × (has_text state.targets entry.0.target_path ≡ true)

abbrev pub IsPlaced : FileState → Type 0
IsPlaced state =
    All IsMountable state.metadata
    × (All (Remembers state) state.metadata × Pairwise Differ state.metadata)

abbrev pub content_bytes : List (Text × Text) → ℕ
content_bytes = weigh (λ entry. length entry.1)

-- A total below the limit has not saturated.
abbrev pub IsCounted : FileState → Type 0
IsCounted state =
    state.total ≤ max_file_total_bytes
    → content_bytes state.public_files + content_bytes state.secret_files ≤ state.total

has_text-apart :
    (texts : List Text) (x y : Text)
    → has_text texts x ≡ true
    → has_text texts y ≡ false
    → same x y ≡ false
has_text-apart texts x y hx hy = elim (Bool-cases (same x y)) [
  | inl e ↦ let h' = rw ((same_iff x y).0 e) at hx in absurd cc
  | inr e ↦ e
]

pub check_file-IsMountable :
    (index : ℕ) (item : ManagedFileInput)
    → check_file index item ≡ ok tt
    → IsMountable (descriptor_of item, index)
unfolding check_file
check_file-IsMountable index item h =
    let path = file_path index ++ lit ".target_path" in
    let (name, h1) =
      (sequence_iff
          (at_path (file_path index ++ lit ".logical_name") "INVALID_FILE_NAME"
            (validate_logical_name item.logical_name))
          _).0
        h in
    let (target, h2) =
      (sequence_iff
          (at_path path "INVALID_MOUNT_TARGET" (validate_container_target item.target_path)) _).0
        h1 in
    (
      at_path-ok path "INVALID_MOUNT_TARGET" (validate_container_target item.target_path) tt target,
      refl,
    )

pub claim_file-new :
    (index : ℕ) (item : ManagedFileInput) (state : FileState)
    → claim_file index item state ≡ ok tt
    → (has_text state.final_names item.logical_name ≡ false)
      × (has_text state.targets item.target_path ≡ false)
unfolding claim_file
claim_file-new index item state h =
    let (name, target) = (sequence_iff _ _).0 h in
    (
      (both_false (has_text state.public_names item.logical_name) _
          (not-true _ ((ensure_iff _ _).0 name))).1,
      not-true _ ((ensure_iff _ _).0 target),
    )

pub place_file-IsPlaced :
    (index : ℕ) (item : ManagedFileInput) (total : ℕ) (state : FileState)
    → check_file index item ≡ ok tt
    → claim_file index item state ≡ ok tt
    → IsPlaced state
    → IsPlaced (place_file index item total state)
unfolding place_file
place_file-IsPlaced index item total state checked claimed (mountable, (remembered, differ)) =
    let entry : Entry = (descriptor_of item, index) in
    let (new_name, new_target) = claim_file-new index item state claimed in
    let next = place_file index item total state in
    (
      All-append _ state.metadata (entry ∷ []) mountable
          (check_file-IsMountable index item checked, tt),
      (
        All-append (Remembers next) state.metadata (entry ∷ [])
            (All-implies (Remembers state) (Remembers next) state.metadata
              (λ old (name, target). (ground arith, ground arith)) remembered)
            (
              (
                ground (arith, same_refl item.logical_name),
                ground (arith, same_refl item.target_path),
              ),
              tt,
            ),
        Pairwise-append_last Differ state.metadata entry differ (
            All-implies (Remembers state) (λ old. Differ old entry) state.metadata
              (λ old (name, target). (
                has_text-apart state.final_names old.0.logical_name item.logical_name name new_name,
                has_text-apart state.targets old.0.target_path item.target_path target new_target,
              ))
              remembered),
      ),
    )

-- What the quota lets pass is counted.
pub check_quota-total :
    (index : ℕ) (value : Text) (state : FileState) (total : ℕ)
    → check_quota index value state ≡ ok total
    → total ≡ saturating_add state.total (length value)
unfolding check_quota check_file_quota
check_quota-total index value state total h =
    let quota = DomainError.config_quota_exceeded in
    let inner =
      at_path-ok (file_path index ++ lit ".content") "CONFIG_QUOTA_EXCEEDED"
        (check_file_quota value state.total) total h in
    let (u, small, e) = bind-ok (ensure (leb (length value) max_file_bytes) quota) _ _ inner in cc

pub place_public-IsCounted :
    (index : ℕ) (item : ManagedFileInput) (value : Text) (total : ℕ) (state : FileState)
    → total ≡ saturating_add state.total (length value)
    → IsCounted state
    → IsCounted (place_public index item value total state)
unfolding place_public place_file saturating_add
place_public-IsCounted index item value total state e counted le =
    let earlier = counted (omega arith) in
    omega (
      arith,
      insert_by_key-weigh (λ (entry : Text × Text). length entry.1) entry_key
          (item.logical_name, value) state.public_files,
    )

pub place_secret-IsCounted :
    (index : ℕ) (item : ManagedFileInput) (value : Text) (total : ℕ) (state : FileState)
    → total ≡ saturating_add state.total (length value)
    → IsCounted state
    → IsCounted (place_secret index item value total state)
unfolding place_secret place_file saturating_add
place_secret-IsCounted index item value total state e counted le =
    let earlier = counted (omega arith) in
    omega (
      arith,
      insert_by_key-weigh (λ (entry : Text × Text). length entry.1) entry_key
          (item.logical_name, value) state.secret_files,
    )

abbrev pub IsAccepted : FileState → Type 0
IsAccepted state = IsPlaced state × IsCounted state
