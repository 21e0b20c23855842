-- ===== src/Domain/Mounts/Overlap.antt =====
-- No mount of an accepted configuration lies in another (src/domain/validation.rs).
use solodock.Domain.Mounts.{
  bind_targets, volume_targets, file_targets, BindMountInput, VolumeInput, ManagedFileMetadata,
  validate_mount_target_conflicts, check_targets, overlaps, check_against,
}
use solodock.Base.{
  not-true, neither_iff, ℕ, true, false, not, List, [], ◌∷◌, ◌++◌, ◌≡◌, refl, ◌↔◌, All, arith, ok,
  ensure_iff, sequence_iff, ap,
}
use solodock.Base.Text.{Text, same, same_iff}
use solodock.Domain.Paths.{components, is_prefix}

is_prefix_iff :
    (base path : List Text)
    → (is_prefix base path ≡ true) ↔ ((rest : List Text) × (path ≡ base ++ rest))
unfolding is_prefix
is_prefix_iff [] path = (λ h. (path, refl), λ h. refl)
is_prefix_iff (p ∷ ps) [] = (λ h. absurd cc, λ h. absurd cc)
is_prefix_iff (p ∷ ps) (c ∷ cs) = (
  λ h.
      let (rest, e) = (is_prefix_iff ps cs).0 (ground arith) in
      let e' : p ≡ c = (same_iff p c).0 (ground arith) in (rest, cc),
  λ (rest, e).
      let p' : p ≡ c = cc in
      let cs' : cs ≡ ps ++ rest = cc in
      let here : same p c ≡ true = (same_iff p c).1 p' in
      let later : is_prefix ps cs ≡ true = (is_prefix_iff ps cs).1 (rest, cs') in
      rw (here, later) refl,
)

-- The components of `path` begin with those of `base`.
abbrev pub Lies : Text → Text → Type 0
Lies path base = (rest : List Text) × (components path ≡ components base ++ rest)

abbrev pub Apart : Text → Text → Type 0
Apart left right = (Lies left right → ⊥) × (Lies right left → ⊥)

overlaps_iff : (left right : Text) → (overlaps left right ≡ false) ↔ Apart left right
unfolding overlaps
overlaps_iff left right =
    neither_iff _ _ (Lies left right) (Lies right left)
      (is_prefix_iff (components right) (components left))
      (is_prefix_iff (components left) (components right))

check_against_iff :
    (left : Text) (targets : List (Text × Text))
    → (check_against left targets ≡ ok tt) ↔ All (λ (t : Text × Text). Apart left t.1) targets
unfolding check_against
check_against_iff left [] = (λ h. tt, λ h. refl)
check_against_iff left ((path, right) ∷ rest) = (
  λ h.
      let (now, later) = (sequence_iff _ _).0 h in
      (
        (overlaps_iff left right).0 (not-true _ ((ensure_iff _ _).0 now)),
        (check_against_iff left rest).0 later,
      ),
  λ (now, later). (sequence_iff _ _).1 (
    (ensure_iff _ _).1 (ap not ((overlaps_iff left right).1 now)),
    (check_against_iff left rest).1 later,
  ),
)

-- Each target is apart from those after it.
abbrev pub Disjoint : List (Text × Text) → Type 0
Disjoint [] = Unit
Disjoint ((path, left) ∷ rest) = All (λ (t : Text × Text). Apart left t.1) rest × Disjoint rest

check_targets_iff :
    (targets : List (Text × Text)) → (check_targets targets ≡ ok tt) ↔ Disjoint targets
unfolding check_targets
check_targets_iff [] = (λ h. tt, λ h. refl)
check_targets_iff ((path, left) ∷ rest) = (
  λ h.
      let (now, later) = (sequence_iff _ _).0 h in
      ((check_against_iff left rest).0 now, (check_targets_iff rest).0 later),
  λ (now, later).
      (sequence_iff _ _).1 ((check_against_iff left rest).1 now, (check_targets_iff rest).1 later),
)

-- The targets of files, volumes and binds pass exactly when no two of them are equal and none lies in
-- another, component by component.
pub validate_mount_target_conflicts_iff :
    (files : List (ManagedFileMetadata × ℕ)) (volumes : List VolumeInput)
    (binds : List BindMountInput)
    → (validate_mount_target_conflicts files volumes binds ≡ ok tt)
      ↔ Disjoint (file_targets files ++ (volume_targets 0 volumes ++ bind_targets 0 binds))
unfolding validate_mount_target_conflicts
validate_mount_target_conflicts_iff files volumes binds = check_targets_iff _
