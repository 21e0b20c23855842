-- ===== src/Base/Int.antt =====
-- Signed integers (`i64`): the values that the program compares and adds lie far inside its range.
use solodock.Base.Tests.{option_eq, ◌==◌}
use Prim.Native.Nat.{ℕ}
use mathlib.Core.Path.{◌≡◌, refl}
use mathlib.Core.Option.{Option, none, some}
use mathlib.Core.Logic.{◌↔◌}
use mathlib.Core.Bool.{Bool, true, false}
use native.Mathlib.Omega.{arith}

-- `negsuc n` is -(n + 1).
pub data ℤ : Type 0 where
  pos : ℕ → ℤ
  negsuc : ℕ → ℤ

abbrev pub int_eq : ℤ → ℤ → Bool
int_eq (pos a) (pos b) = a == b
int_eq (negsuc a) (negsuc b) = a == b
int_eq _ _ = false

pub int_eq_iff : (a b : ℤ) → (int_eq a b ≡ true) ↔ (a ≡ b)
int_eq_iff (pos a) (pos b) = ground arith
int_eq_iff (pos a) (negsuc b) = (λ h. cc, λ h. cc)
int_eq_iff (negsuc a) (pos b) = (λ h. cc, λ h. cc)
int_eq_iff (negsuc a) (negsuc b) = ground arith

pub option_int_iff : (a b : Option ℤ) → (option_eq int_eq a b ≡ true) ↔ (a ≡ b)
option_int_iff none none = (λ h. refl, λ h. refl)
option_int_iff none (some b) = (λ h. cc, λ h. cc)
option_int_iff (some a) none = (λ h. cc, λ h. cc)
option_int_iff (some a) (some b) = ground (arith, int_eq_iff a b)
