-- ===== src/Base/Text.antt =====
-- Text as the list of its UTF-8 bytes, for code that walks it, with the functions of `str` that the
-- program calls.
use Prim.Native.Char.{code}
use Prim.Native.String.{String}
use solodock.Base.Tests.{
  option_eq, Bool-cases, Option-cases, ==_iff, leb, ◌==◌, if◌then◌else◌, is_some,
}
use solodock.Base.Lists.{any}
use Prim.Native.Nat.{ℕ, ◌+◌}
use mathlib.Core.Path.{sym, ◌≡◌, refl, ap, ◌∙◌}
use mathlib.Core.Logic.{◌↔◌, inl, inr}
use mathlib.Core.Bool.{false≢true, Bool, true, false, ◌&&◌, ◌||◌}
use mathlib.Core.Option.{Option, none, some}
use mathlib.Core.List.{List, [], ◌∷◌, ◌++◌}
use native.Mathlib.Omega.{arith}

abbrev pub Text : Type 0
Text = List ℕ

-- A literal of the source. Every literal of the modelled code is ASCII, where code points are bytes.
abbrev pub lit : String → Text
lit String.[] = []
lit (String.◌∷◌ c s) = code c ∷ lit s

unfoldable pub same : Text → Text → Bool
same [] [] = true
same (x ∷ xs) (y ∷ ys) = x == y && same xs ys
same _ _ = false

pub same_iff : (s t : Text) → (same s t ≡ true) ↔ (s ≡ t)
unfolding same
same_iff [] [] = (λ h. refl, λ h. refl)
same_iff [] (y ∷ ys) = (λ h. cc, λ h. cc)
same_iff (x ∷ xs) [] = (λ h. cc, λ h. cc)
same_iff (x ∷ xs) (y ∷ ys) = ground (arith, same_iff xs ys)

pub same_refl : (s : Text) → same s s ≡ true
same_refl s = (same_iff s s).1 refl

pub same_sym : (s t : Text) → same s t ≡ same t s
unfolding same
same_sym [] [] = refl
same_sym [] (y ∷ ys) = refl
same_sym (x ∷ xs) [] = refl
same_sym (x ∷ xs) (y ∷ ys) = ground (arith, same_sym xs ys)

pub option_same_iff : (a b : Option Text) → (option_eq same a b ≡ true) ↔ (a ≡ b)
option_same_iff none none = (λ h. refl, λ h. refl)
option_same_iff none (some b) = (λ h. cc, λ h. cc)
option_same_iff (some a) none = (λ h. cc, λ h. cc)
option_same_iff (some a) (some b) = ground (arith, same_iff a b)

abbrev pub is_empty {ℓ} : {A : Type ℓ} → List A → Bool
is_empty [] = true
is_empty (x ∷ xs) = false

-- `contains(c)` of a byte.
abbrev pub has_byte : ℕ → Text → Bool
has_byte c = any (λ b. b == c)

unfoldable pub strip_prefix : Text → Text → Option Text
strip_prefix [] s = some s
strip_prefix (p ∷ ps) [] = none
strip_prefix (p ∷ ps) (c ∷ s) = if p == c then strip_prefix ps s else none

pub strip_prefix-append : (p s : Text) → strip_prefix p (p ++ s) ≡ some s
unfolding strip_prefix
strip_prefix-append [] s = refl
strip_prefix-append (c ∷ p) s = ground (arith, strip_prefix-append p s)

pub strip_prefix_sound : (p s t : Text) → strip_prefix p s ≡ some t → s ≡ p ++ t
unfolding strip_prefix
strip_prefix_sound [] s t h = ground arith
strip_prefix_sound (c ∷ p) [] t h = cc
strip_prefix_sound (c ∷ p) (b ∷ s) t h = ground (arith, strip_prefix_sound p s t)

abbrev pub starts_with : Text → Text → Bool
starts_with p s = is_some (strip_prefix p s)

-- `contains` of a text.
unfoldable pub contains : Text → Text → Bool
contains p [] = is_empty p
contains p (c ∷ s) = starts_with p (c ∷ s) || contains p s

-- The text before and after the last `c`, as `rfind` and slicing give it.
unfoldable pub rsplit_once : ℕ → Text → Option (Text × Text)
rsplit_once c [] = none
rsplit_once c (b ∷ s) = elim (rsplit_once c s) [
  | some (l, r) ↦ some (b ∷ l, r)
  | none ↦ if b == c then some ([], s) else none
]

has_byte-append : (c : ℕ) (l r : Text) → has_byte c (l ++ c ∷ r) ≡ true
has_byte-append c [] r = ground arith
has_byte-append c (b ∷ l) r = ground (arith, has_byte-append c l r)

pub rsplit_once-none : (c : ℕ) (s : Text) → rsplit_once c s ≡ none → has_byte c s ≡ false
unfolding rsplit_once
rsplit_once-none c [] h = refl
rsplit_once-none c (b ∷ s) h = ground (arith, rsplit_once-none c s)

pub rsplit_once_sound :
    (c : ℕ) (s l r : Text)
    → rsplit_once c s ≡ some (l, r)
    → (s ≡ l ++ c ∷ r) × (has_byte c r ≡ false)
unfolding rsplit_once
rsplit_once_sound c [] l r h = cc
rsplit_once_sound c (b ∷ s) l r h = elim (Option-cases (rsplit_once c s)) [
  | inl last ↦ ground (arith, rsplit_once-none c s last, ==_iff b c)
  | inr ((l', r'), found) ↦ ground (arith, rsplit_once_sound c s l' r' found)
]

pub rsplit_once-append :
    (c : ℕ) (l r : Text) → has_byte c r ≡ false → rsplit_once c (l ++ c ∷ r) ≡ some (l, r)
unfolding rsplit_once
rsplit_once-append c [] r h = elim (Option-cases (rsplit_once c r)) [
  | inl last ↦ ground arith
  | inr ((l', r'), found) ↦ absurd (
      false≢true
        (sym h ∙ (ap (has_byte c) (rsplit_once_sound c r l' r' found).0 ∙ has_byte-append c l' r')))
]
rsplit_once-append c (b ∷ l) r h = rw (rsplit_once-append c l r h)

-- `split('/')`: the parts between the separators, the first of them apart.
unfoldable pub split : ℕ → Text → Text × List Text
split c [] = ([], [])
split c (b ∷ s) =
    let (first, rest) = split c s in if b == c then ([], first ∷ rest) else (b ∷ first, rest)

-- `join("/")` of a first part and the others.
unfoldable pub join : ℕ → Text → List Text → Text
join c first [] = first
join c first (next ∷ rest) = first ++ c ∷ join c next rest

join-cons : (c b : ℕ) (f : Text) (rest : List Text) → join c (b ∷ f) rest ≡ b ∷ join c f rest
unfolding join
join-cons c b f [] = refl
join-cons c b f (next ∷ rest) = refl

pub join-split : (c : ℕ) (s : Text) → join c (split c s).0 (split c s).1 ≡ s
unfolding join split
join-split c [] = refl
join-split c (b ∷ s) = elim (Bool-cases (b == c)) [
  | inl e ↦ rw (e, join-split c s, (==_iff b c).0 e)
  | inr e ↦ rw (e, join-cons c b (split c s).0 (split c s).1, join-split c s)
]

-- `u8::is_ascii_…`.
abbrev pub is_digit : ℕ → Bool
is_digit b = leb b'0' b && leb b b'9'

abbrev pub is_lowercase : ℕ → Bool
is_lowercase b = leb b'a' b && leb b b'z'

abbrev pub is_uppercase : ℕ → Bool
is_uppercase b = leb b'A' b && leb b b'Z'

abbrev pub is_alphanumeric : ℕ → Bool
is_alphanumeric b = is_digit b || (is_lowercase b || is_uppercase b)

abbrev pub is_control : ℕ → Bool
is_control b = leb b 31 || b == 127

-- Space, tab, line feed, form feed and carriage return.
abbrev pub is_whitespace : ℕ → Bool
is_whitespace b = b == 32 || (b == 9 || (b == 10 || (b == 12 || b == 13)))

-- A lowercase hexadecimal digit.
abbrev pub is_lower_hex : ℕ → Bool
is_lower_hex b = is_digit b || (leb b'a' b && leb b b'f')

-- `to_ascii_lowercase`.
abbrev pub to_lower : Text → Text
to_lower [] = []
to_lower (b ∷ s) = (if is_uppercase b then b + 32 else b) ∷ to_lower s
