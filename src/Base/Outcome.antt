-- ===== src/Base/Outcome.antt =====
-- Results of fallible code, with the monad of `?`.
use mathlib.Core.Path.{◌≡◌, refl}
use mathlib.Core.Logic.{◌↔◌, ◌⊎◌, inl, inr}
use mathlib.Core.Option.{Option, none, some}
use mathlib.Core.Bool.{Bool, true, false}

pub data Result {ℓ κ} (E : Type κ) (A : Type ℓ) : Type (ℓ ⊔ κ) where
  ok : A → Result E A
  err : E → Result E A

infixl 5 ◌>>=◌ ◌>>◌
abbrev pub ◌>>=◌ {ℓ κ μ} :
    {E : Type μ} {A : Type ℓ} {B : Type κ} → Result E A → (A → Result E B) → Result E B
ok a >>= f = f a
err e >>= f = err e

abbrev pub ◌>>◌ {ℓ μ} : {E : Type μ} {B : Type ℓ} → Result E (Unit {0}) → Result E B → Result E B
m >> k = m >>= λ _. k

-- `if !test { return Err(e) }`.
abbrev pub ensure {μ} : {E : Type μ} → Bool → E → Result E (Unit {0})
ensure true e = ok tt
ensure false e = err e

-- `Option::ok_or`.
abbrev pub ok_or {ℓ μ} : {E : Type μ} {A : Type ℓ} → Option A → E → Result E A
ok_or none e = err e
ok_or (some a) e = ok a

-- The state after a transaction that commits, or rolls back on an error.
abbrev pub after {ℓ μ} : {E : Type μ} {S : Type ℓ} → S → Result E S → S
after s (ok t) = t
after s (err e) = s

pub Result-cases {ℓ μ} :
    {E : Type μ} {A : Type ℓ} (r : Result E A) → ((a : A) × (r ≡ ok a)) ⊎ ((e : E) × (r ≡ err e))
Result-cases (ok a) = inl (a, refl)
Result-cases (err e) = inr (e, refl)

pub ensure_iff {μ} : {E : Type μ} (b : Bool) (e : E) → (ensure b e ≡ ok (tt {0})) ↔ (b ≡ true)
ensure_iff true e = (λ h. refl, λ h. refl)
ensure_iff false e = (λ h. absurd cc, λ h. absurd cc)

-- A sequence of checks passes exactly when each of them does.
pub sequence_iff {μ} :
    {E : Type μ} (a b : Result E (Unit {0})) → (a >> b ≡ ok tt) ↔ ((a ≡ ok tt) × (b ≡ ok tt))
sequence_iff (ok u) b = (λ h. (refl, h), λ h. h.1)
sequence_iff (err e) b = (λ h. absurd cc, λ h. absurd cc)

-- What passed when a chain of `?` passes.
pub bind-ok {ℓ κ μ} :
    {E : Type μ} {A : Type κ} {B : Type ℓ} (m : Result E A) (f : A → Result E B) (b : B)
    → (m >>= f) ≡ ok b
    → (a : A) × (m ≡ ok a) × (f a ≡ ok b)
bind-ok (ok a) f b h = (a, refl, h)
bind-ok (err e) f b h = absurd cc

pub ok-injective {ℓ μ} :
    {E : Type μ} {A : Type ℓ} (a b : A) → ◌≡◌ {A = Result E A} (ok a) (ok b) → a ≡ b
ok-injective a b h = cc
