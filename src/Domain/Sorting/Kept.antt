-- ===== src/Domain/Sorting/Kept.antt =====
-- What insertion by a key and the stable sort keep of a list (src/domain/).
use solodock.Base.{
  ℕ, ◌+◌, List, [], ◌∷◌, ◌++◌, ◌≡◌, refl, inl, inr, All, All-append, length, arith, Bool-cases, sym,
  ap, ◌∙◌,
}
use solodock.Base.Text.{Text}
use solodock.Domain.Sorting.{text_leb, insert_by_key, sort_by_key}

-- The sum of a weight over a list.
abbrev pub weigh {ℓ} : {A : Type ℓ} → (A → ℕ) → List A → ℕ
weigh w [] = 0
weigh w (x ∷ xs) = w x + weigh w xs

pub insert_by_key-weigh {ℓ} :
    {A : Type ℓ} (w : A → ℕ) (key : A → Text) (x : A) (xs : List A)
    → weigh w (insert_by_key key x xs) ≡ w x + weigh w xs
unfolding insert_by_key
insert_by_key-weigh w key x [] = refl
insert_by_key-weigh w key x (y ∷ ys) = ground (arith, insert_by_key-weigh w key x ys)

pub sort_by_key-weigh {ℓ} :
    {A : Type ℓ} (w : A → ℕ) (key : A → Text) (xs : List A)
    → weigh w (sort_by_key key xs) ≡ weigh w xs
unfolding sort_by_key
sort_by_key-weigh w key [] = refl
sort_by_key-weigh w key (x ∷ xs) =
    insert_by_key-weigh w key x (sort_by_key key xs)
    ∙ ap (λ n. w x + n) (sort_by_key-weigh w key xs)

weigh-length {ℓ} : {A : Type ℓ} (xs : List A) → weigh (λ x. 1) xs ≡ length xs
weigh-length [] = refl
weigh-length (x ∷ xs) = omega (arith, weigh-length xs)

pub sort_by_key-length {ℓ} :
    {A : Type ℓ} (key : A → Text) (xs : List A) → length (sort_by_key key xs) ≡ length xs
sort_by_key-length key xs =
    sym (weigh-length (sort_by_key key xs)) ∙ sort_by_key-weigh (λ x. 1) key xs ∙ weigh-length xs

pub insert_by_key-All {ℓ κ} :
    {A : Type ℓ} (P : A → Type κ) (key : A → Text) (x : A) (xs : List A)
    → P x
    → All P xs
    → All P (insert_by_key key x xs)
unfolding insert_by_key
insert_by_key-All P key x [] hx hs = (hx, tt)
insert_by_key-All P key x (y ∷ ys) hx (hy, hs) = elim (Bool-cases (text_leb (key x) (key y))) [
  | inl e ↦ rw e (hx, (hy, hs))
  | inr e ↦ rw e (hy, insert_by_key-All P key x ys hx hs)
]

pub sort_by_key-All {ℓ κ} :
    {A : Type ℓ} (P : A → Type κ) (key : A → Text) (xs : List A)
    → All P xs
    → All P (sort_by_key key xs)
unfolding sort_by_key
sort_by_key-All P key [] h = tt
sort_by_key-All P key (x ∷ xs) (hx, hs) =
    insert_by_key-All P key x (sort_by_key key xs) hx (sort_by_key-All P key xs hs)

-- Each element is related to those after it.
abbrev pub Pairwise {ℓ κ} : {A : Type ℓ} → (A → A → Type κ) → List A → Type κ
Pairwise R [] = Unit
Pairwise R (x ∷ xs) = All (R x) xs × Pairwise R xs

pub Pairwise-append_last {ℓ κ} :
    {A : Type ℓ} (R : A → A → Type κ) (xs : List A) (x : A)
    → Pairwise R xs
    → All (λ y. R y x) xs
    → Pairwise R (xs ++ x ∷ [])
Pairwise-append_last R [] x h hx = (tt, tt)
Pairwise-append_last R (y ∷ ys) x (h, hs) (hy, hx) =
    (All-append (R y) ys (x ∷ []) h (hy, tt), Pairwise-append_last R ys x hs hx)

pub insert_by_key-Pairwise {ℓ κ} :
    {A : Type ℓ} (R : A → A → Type κ) (key : A → Text) (x : A) (xs : List A)
    → ((y z : A) → R y z → R z y)
    → All (R x) xs
    → Pairwise R xs
    → Pairwise R (insert_by_key key x xs)
unfolding insert_by_key
insert_by_key-Pairwise R key x [] symm hx hs = (tt, tt)
insert_by_key-Pairwise R key x (y ∷ ys) symm (hxy, hx) (hy, hs) =
    elim (Bool-cases (text_leb (key x) (key y))) [
      | inl e ↦ rw e ((hxy, hx), (hy, hs))
      | inr e ↦ rw e (
        insert_by_key-All (R y) key x ys (symm x y hxy) hy,
        insert_by_key-Pairwise R key x ys symm hx hs,
      )
    ]

pub sort_by_key-Pairwise {ℓ κ} :
    {A : Type ℓ} (R : A → A → Type κ) (key : A → Text) (xs : List A)
    → ((y z : A) → R y z → R z y)
    → Pairwise R xs
    → Pairwise R (sort_by_key key xs)
unfolding sort_by_key
sort_by_key-Pairwise R key [] symm h = tt
sort_by_key-Pairwise R key (x ∷ xs) symm (hx, hs) =
    insert_by_key-Pairwise R key x (sort_by_key key xs) symm (sort_by_key-All (R x) key xs hx)
      (sort_by_key-Pairwise R key xs symm hs)
