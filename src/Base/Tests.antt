-- ===== src/Base/Tests.antt =====
-- Boolean tests on numbers and texts, the conditional, and the case splits of the proofs.
use Prim.Native.Nat.{ℕ, compare, Ordering}
use Prim.Native.String.{String}
use text.Mathlib.Text.{◌==◌ as text_beq}
use text.Mathlib.TextEquality.{eq_iff as text_beq_iff}
use mathlib.Core.Path.{◌≡◌, refl}
use mathlib.Core.Logic.{◌↔◌, ◌⊎◌, inl, inr}
use mathlib.Core.Bool.{Bool, true, false, not, ◌&&◌, ◌||◌, false≢true}
use mathlib.Core.Option.{Option, none, some}
use native.Mathlib.Omega.{arith}

abbrev pub ltb : ℕ → ℕ → Bool
ltb a b = elim (compare a b) [ Ordering.lt ↦ true | _ ↦ false ]

abbrev pub leb : ℕ → ℕ → Bool
leb a b = elim (compare a b) [ Ordering.gt ↦ false | _ ↦ true ]

infix 50 ◌==◌
abbrev pub ◌==◌ : ℕ → ℕ → Bool
a == b = elim (compare a b) [ Ordering.eq ↦ true | _ ↦ false ]

infix 1 if◌then◌else◌
abbrev pub if◌then◌else◌ {ℓ} : {A : Type ℓ} → Bool → A → A → A
if true then x else y = x
if false then x else y = y

pub ==_iff : (a b : ℕ) → ((a == b) ≡ true) ↔ (a ≡ b)
==_iff a b = ground arith

pub ==_refl : (a : ℕ) → (a == a) ≡ true
==_refl a = ground arith

-- Texts that the program only stores and compares.
abbrev pub text_eq : String → String → Bool
text_eq = text_beq

pub text_eq_iff : (s t : String) → (text_eq s t ≡ true) ↔ (s ≡ t)
text_eq_iff = text_beq_iff

-- `x == Some(y)` and `x == z` on optional values, by the equality of the values.
abbrev pub is_some {ℓ} : {A : Type ℓ} → Option A → Bool
is_some none = false
is_some (some a) = true

abbrev pub option_eq {ℓ} : {A : Type ℓ} → (A → A → Bool) → Option A → Option A → Bool
option_eq eq none none = true
option_eq eq (some a) (some b) = eq a b
option_eq eq _ _ = false

-- `COALESCE(a, b)` and `Option::or`.
abbrev pub coalesce {ℓ} : {A : Type ℓ} → Option A → Option A → Option A
coalesce none b = b
coalesce (some a) b = some a

pub Bool-cases : (b : Bool) → (b ≡ true) ⊎ (b ≡ false)
Bool-cases true = inl refl
Bool-cases false = inr refl

pub Option-cases {ℓ} : {A : Type ℓ} (o : Option A) → (o ≡ none) ⊎ ((a : A) × (o ≡ some a))
Option-cases none = inl refl
Option-cases (some a) = inr (a, refl)

pub both_true : (a b : Bool) → (a && b) ≡ true → (a ≡ true) × (b ≡ true)
both_true true b h = (refl, h)
both_true false b h = absurd cc

pub both_false : (a b : Bool) → (a || b) ≡ false → (a ≡ false) × (b ≡ false)
both_false true b h = absurd cc
both_false false b h = (refl, h)

pub not-true : (b : Bool) → not b ≡ true → b ≡ false
not-true true h = absurd cc
not-true false h = refl

pub neither_iff {κ μ} :
    (a b : Bool) (P : Type κ) (Q : Type μ)
    → (a ≡ true) ↔ P
    → (b ≡ true) ↔ Q
    → ((a || b) ≡ false) ↔ ((P → ⊥) × (Q → ⊥))
neither_iff true b P Q p q = (λ h. absurd cc, λ (np, nq). absurd (np (p.0 refl)))
neither_iff false true P Q p q = (λ h. absurd cc, λ (np, nq). absurd (nq (q.0 refl)))
neither_iff false false P Q p q =
    (λ h. (λ x. false≢true (p.1 x), λ x. false≢true (q.1 x)), λ n. refl)
