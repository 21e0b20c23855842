-- ===== src/Domain/Binds/Plan.antt =====
-- Which bind plans are accepted (src/domain/validation.rs).
use solodock.Domain.Binds.{validate_bind_plan, bind_sources_conflict, BindSafetySource, is_below}
use solodock.Base.{
  both_true, both_false, not-true, neither_iff, Bool, true, false, not, ◌&&◌, List, [], ◌∷◌, ◌++◌,
  ◌≡◌, refl, ◌↔◌, All, any, arith, ok, ensure_iff, sequence_iff, sym, ◌∙◌,
}
use solodock.Base.Text.{same_sym, Text, same, same_iff}
use solodock.Domain.Paths.{is_prefix, same_path}

-- `path` is strictly below `base`.
abbrev pub Below : List Text → List Text → Type 0
Below path base = (part : Text) × (rest : List Text) × (path ≡ base ++ part ∷ rest)

is_below-cons :
    (c p : Text) (cs ps : List Text) → is_below (c ∷ cs) (p ∷ ps) ≡ (same p c && is_below cs ps)
unfolding is_below is_prefix same_path
is_below-cons c p cs ps = ground (arith, same_sym c p)

pub is_below_iff : (path base : List Text) → (is_below path base ≡ true) ↔ Below path base
unfolding is_below is_prefix same_path
is_below_iff [] [] = (λ h. absurd cc, λ (part, rest, e). absurd cc)
is_below_iff (c ∷ cs) [] = (λ h. (c, cs, refl), λ h. refl)
is_below_iff [] (p ∷ ps) = (λ h. absurd cc, λ (part, rest, e). absurd cc)
is_below_iff (c ∷ cs) (p ∷ ps) = (
  λ h.
      let (front, later) =
        both_true (same p c) (is_below cs ps) (sym (is_below-cons c p cs ps) ∙ h) in
      let (part, rest, e) = (is_below_iff cs ps).0 later in
      let e' : p ≡ c = (same_iff p c).0 front in (part, rest, cc),
  λ (part, rest, e).
      let e' : p ≡ c = cc in
      let later : cs ≡ ps ++ part ∷ rest = cc in
      let front : same p c ≡ true = (same_iff p c).1 e' in
      is_below-cons c p cs ps ∙ rw (front, (is_below_iff cs ps).1 (part, rest, later)) refl,
)

-- A writable source has no other source below it.
abbrev pub Harmless : BindSafetySource → BindSafetySource → Type 0
Harmless left right =
    ((left.readonly ≡ false) × Below right.identity.path left.identity.path → ⊥)
    × ((right.readonly ≡ false) × Below left.identity.path right.identity.path → ⊥)

guarded_iff {κ} :
    (readonly b : Bool) (P : Type κ)
    → (b ≡ true) ↔ P
    → ((not readonly && b) ≡ true) ↔ ((readonly ≡ false) × P)
guarded_iff true b P p = (λ h. absurd cc, λ (e, x). absurd cc)
guarded_iff false b P p = (λ h. (refl, p.0 h), λ (e, x). p.1 x)

Harmless-iff :
    (left right : BindSafetySource)
    → (bind_sources_conflict left right ≡ false) ↔ Harmless left right
unfolding bind_sources_conflict
Harmless-iff left right =
    neither_iff _ _ _ _
      (guarded_iff left.readonly _ _ (is_below_iff right.identity.path left.identity.path))
      (guarded_iff right.readonly _ _ (is_below_iff left.identity.path right.identity.path))

none_conflicts_iff :
    (left : BindSafetySource) (sources : List BindSafetySource)
    → (any (bind_sources_conflict left) sources ≡ false) ↔ All (Harmless left) sources
none_conflicts_iff left [] = (λ h. tt, λ h. refl)
none_conflicts_iff left (right ∷ rest) = (
  λ h.
      let (now, later) = both_false _ _ h in
      ((Harmless-iff left right).0 now, (none_conflicts_iff left rest).0 later),
  λ (now, later). rw ((Harmless-iff left right).1 now, (none_conflicts_iff left rest).1 later) refl,
)

-- Each planned source is harmless with those after it and with the existing ones.
abbrev pub IsSafePlan : List BindSafetySource → List BindSafetySource → Type 0
IsSafePlan [] existing = Unit
IsSafePlan (left ∷ rest) existing =
    All (Harmless left) rest × (All (Harmless left) existing × IsSafePlan rest existing)

-- A bind plan passes exactly when no writable source, planned or in use by another application, has
-- another source below it, component by component; sources in use are not compared with each other.
pub validate_bind_plan_iff :
    (target existing : List BindSafetySource)
    → (validate_bind_plan target existing ≡ ok tt) ↔ IsSafePlan target existing
unfolding validate_bind_plan
validate_bind_plan_iff [] existing = (λ h. tt, λ h. refl)
validate_bind_plan_iff (left ∷ rest) existing = (
  λ h.
      let (now, later) = (sequence_iff _ _).0 h in
      let (a, b) = both_false _ _ (not-true _ ((ensure_iff _ _).0 now)) in
      (
        (none_conflicts_iff left rest).0 a,
        ((none_conflicts_iff left existing).0 b, (validate_bind_plan_iff rest existing).0 later),
      ),
  λ (a, (b, later)).
      let a' = (none_conflicts_iff left rest).1 a in
      let b' = (none_conflicts_iff left existing).1 b in
      (sequence_iff _ _).1
        ((ensure_iff _ _).1 (rw (a', b') refl), (validate_bind_plan_iff rest existing).1 later),
)
