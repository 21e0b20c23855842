-- ===== src/Domain/Sorting.antt =====
-- The order of texts, and the sorts by a key that src/domain/ uses: a stable `sort_by`, and the keys of
-- a `BTreeMap` or of a `HashSet`.
use solodock.Base.{ℕ, Bool, true, false, List, [], ◌∷◌, ◌==◌, ltb, any, if◌then◌else◌}
use solodock.Base.Text.{Text, same}
pub mod Kept

-- The order of texts by their bytes.
unfoldable pub text_leb : Text → Text → Bool
text_leb [] t = true
text_leb (b ∷ s) [] = false
text_leb (b ∷ s) (c ∷ t) = if b == c then text_leb s t else ltb b c

unfoldable pub insert_by_key {ℓ} : {A : Type ℓ} → (A → Text) → A → List A → List A
insert_by_key key x [] = x ∷ []
insert_by_key key x (y ∷ ys) =
    let rest = insert_by_key key x ys in if text_leb (key x) (key y) then x ∷ y ∷ ys else y ∷ rest

-- `sort_by` with the order of a key: stable.
unfoldable pub sort_by_key {ℓ} : {A : Type ℓ} → (A → Text) → List A → List A
unfolding insert_by_key text_leb
sort_by_key key [] = []
sort_by_key key (x ∷ xs) = insert_by_key key x (sort_by_key key xs)

abbrev pub has_text : List Text → Text → Bool
has_text texts t = any (same t) texts
