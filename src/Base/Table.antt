-- ===== src/Base/Table.antt =====
-- Tables as lists of rows, with the row operations that SQL statements make.
use solodock.Base.Tests.{if◌then◌else◌, Bool-cases}
use solodock.Base.Lists.{All, length}
use mathlib.Core.Logic.{inl, inr}
use Prim.Native.Nat.{ℕ, suc, ◌+◌, ◌≤◌, ◌<◌}
use mathlib.Core.Path.{ap, ◌≡◌, refl}
use mathlib.Core.Bool.{Bool, true, false}
use mathlib.Core.Option.{Option, none, some}
use mathlib.Core.List.{List, [], ◌∷◌, ◌++◌}
use native.Mathlib.Omega.{arith}

module _ {ℓ} {A : Type ℓ} where
  -- `SELECT COUNT(*) … WHERE p`, and the rows affected by an update.
  abbrev pub count_where : (A → Bool) → List A → ℕ
  count_where p [] = 0
  count_where p (r ∷ rs) = if p r then suc (count_where p rs) else count_where p rs

  -- `UPDATE … SET f WHERE p`.
  abbrev pub update_where : (A → Bool) → (A → A) → List A → List A
  update_where p f [] = []
  update_where p f (r ∷ rs) = (if p r then f r else r) ∷ update_where p f rs

  -- `DELETE … WHERE p` keeps the rows that fail `p`.
  abbrev pub delete_where : (A → Bool) → List A → List A
  delete_where p [] = []
  delete_where p (r ∷ rs) = if p r then delete_where p rs else r ∷ delete_where p rs

  -- The first row that satisfies `p`: `fetch_optional` under a primary key.
  abbrev pub find_where : (A → Bool) → List A → Option A
  find_where p [] = none
  find_where p (r ∷ rs) = if p r then some r else find_where p rs

  abbrev pub select_where : (A → Bool) → List A → List A
  select_where p [] = []
  select_where p (r ∷ rs) = if p r then r ∷ select_where p rs else select_where p rs

  pub count_where-append :
      (p : A → Bool) (xs ys : List A)
      → count_where p (xs ++ ys) ≡ count_where p xs + count_where p ys
  count_where-append p [] ys = omega arith
  count_where-append p (x ∷ xs) ys = ground (arith, count_where-append p xs ys)

  pub select_where-append :
      (p : A → Bool) (xs ys : List A)
      → select_where p (xs ++ ys) ≡ select_where p xs ++ select_where p ys
  select_where-append p [] ys = refl
  select_where-append p (x ∷ xs) ys = ground (arith, select_where-append p xs ys)

  -- An update that never makes a row satisfy `q` adds no row to the count of `q`.
  pub count_where-update_le :
      (p q : A → Bool) (f : A → A) (rs : List A)
      → ((r : A) → p r ≡ true → q (f r) ≡ true → q r ≡ true)
      → count_where q (update_where p f rs) ≤ count_where q rs
  count_where-update_le p q f [] h = omega arith
  count_where-update_le p q f (r ∷ rs) h = ground (arith, h r, count_where-update_le p q f rs h)

  -- An update that keeps `q` of every row keeps the count of `q`.
  pub count_where-update_eq :
      (p q : A → Bool) (f : A → A) (rs : List A)
      → ((r : A) → q (f r) ≡ q r)
      → count_where q (update_where p f rs) ≡ count_where q rs
  count_where-update_eq p q f [] h = refl
  count_where-update_eq p q f (r ∷ rs) h = ground (arith, h r, count_where-update_eq p q f rs h)

  -- A search by what an update keeps finds the updated row.
  pub find_where-update :
      (p q : A → Bool) (f : A → A) (rs : List A) (r : A)
      → ((s : A) → q (f s) ≡ q s)
      → find_where q rs ≡ some r
      → find_where q (update_where p f rs) ≡ some (if p r then f r else r)
  find_where-update p q f [] r h e = cc
  find_where-update p q f (s ∷ rs) r h e = ground (arith, h s, find_where-update p q f rs r h)

  pub find_where-append :
      (q : A → Bool) (xs ys : List A) (r : A)
      → find_where q xs ≡ some r
      → find_where q (xs ++ ys) ≡ some r
  find_where-append q [] ys r e = cc
  find_where-append q (x ∷ xs) ys r e = ground (arith, find_where-append q xs ys r)

  pub find_where_sound :
      (q : A → Bool) (rs : List A) (r : A) → find_where q rs ≡ some r → q r ≡ true
  find_where_sound q [] r e = cc
  find_where_sound q (s ∷ rs) r e = ground (arith, find_where_sound q rs r)

  -- A stronger test counts no more rows.
  pub count_where_mono :
      (p q : A → Bool) (rs : List A)
      → ((r : A) → p r ≡ true → q r ≡ true)
      → count_where p rs ≤ count_where q rs
  count_where_mono p q [] h = omega arith
  count_where_mono p q (r ∷ rs) h = ground (arith, h r, count_where_mono p q rs h)

  pub update_where_none :
      (p : A → Bool) (f : A → A) (rs : List A) → count_where p rs ≡ 0 → update_where p f rs ≡ rs
  update_where_none p f [] h = refl
  update_where_none p f (r ∷ rs) h = ground (arith, update_where_none p f rs)

  -- Where `q` selects one row at most and `p` selects it, no row that `q` selects stays `bad`.
  pub update_where_one :
      (p q bad : A → Bool) (f : A → A) (rs : List A)
      → ((r : A) → p r ≡ true → q r ≡ true)
      → ((r : A) → bad r ≡ true → q r ≡ true)
      → ((r : A) → p r ≡ true → bad (f r) ≡ false)
      → count_where q rs ≤ 1
      → 0 < count_where p rs
      → count_where bad (update_where p f rs) ≡ 0
  update_where_one p q bad f [] hp hb hf u h = refl
  update_where_one p q bad f (r ∷ rs) hp hb hf u h = ground (
    arith,
    hp r,
    hb r,
    hf r,
    count_where_mono p q rs hp,
    count_where_mono bad q rs hb,
    update_where_none p f rs,
    update_where_one p q bad f rs hp hb hf,
  )

  pub find_where-append_none :
      (q : A → Bool) (xs ys : List A)
      → count_where q xs ≡ 0
      → find_where q (xs ++ ys) ≡ find_where q ys
  find_where-append_none q [] ys h = refl
  find_where-append_none q (x ∷ xs) ys h = ground (arith, find_where-append_none q xs ys)

  -- Where `q` selects one row at most, a search by `q` finds the row that `p` selects.
  pub find_where_one :
      (p q : A → Bool) (rs : List A)
      → ((r : A) → p r ≡ true → q r ≡ true)
      → count_where q rs ≤ 1
      → 0 < count_where p rs
      → (r : A) × (find_where q rs ≡ some r) × (p r ≡ true)
  find_where_one p q [] h u n = absurd (omega arith)
  find_where_one p q (r ∷ rs) h u n = elim (Bool-cases (p r)) [
    | inl hit ↦ (r, ground (arith, h r hit), hit)
    | inr miss ↦
        let (s, found, e) = find_where_one p q rs h (ground arith) (ground arith) in
        (s, ground (arith, count_where_mono p q rs h), e)
  ]

  -- An update after which no row satisfies its own test.
  pub count_where-update_none :
      (p : A → Bool) (f : A → A) (rs : List A)
      → ((r : A) → p (f r) ≡ false)
      → count_where p (update_where p f rs) ≡ 0
  count_where-update_none p f [] h = refl
  count_where-update_none p f (r ∷ rs) h = ground (arith, h r, count_where-update_none p f rs h)

  pub count_where_none→find :
      (q : A → Bool) (rs : List A) → count_where q rs ≡ 0 → find_where q rs ≡ none
  count_where_none→find q [] h = refl
  count_where_none→find q (r ∷ rs) h = ground (arith, count_where_none→find q rs)

  pub count_where-delete_le :
      (p q : A → Bool) (rs : List A) → count_where q (delete_where p rs) ≤ count_where q rs
  count_where-delete_le p q [] = omega arith
  count_where-delete_le p q (r ∷ rs) = ground (arith, count_where-delete_le p q rs)

  pub find_where-delete :
      (p q : A → Bool) (rs : List A) (r : A)
      → find_where q rs ≡ some r
      → ((s : A) → q s ≡ true → p s ≡ false)
      → find_where q (delete_where p rs) ≡ some r
  find_where-delete p q [] r e h = cc
  find_where-delete p q (s ∷ rs) r e h = ground (arith, h s, find_where-delete p q rs r)

  pub count_where-found :
      (q : A → Bool) (rs : List A) (r : A) → find_where q rs ≡ some r → 0 < count_where q rs
  count_where-found q [] r e = cc
  count_where-found q (s ∷ rs) r e = ground (arith, count_where-found q rs r)

  pub All-update {κ} :
      (P : A → Type κ) (p : A → Bool) (f : A → A) (rs : List A)
      → ((r : A) → P r → P (f r))
      → All P rs
      → All P (update_where p f rs)
  All-update P p f [] h hs = hs
  All-update P p f (r ∷ rs) h (hr, hs) = (
    elim (Bool-cases (p r)) [ inl e ↦ rw e (h r hr) | inr e ↦ rw e hr ],
    All-update P p f rs h hs,
  )

  pub All-delete {κ} :
      (P : A → Type κ) (p : A → Bool) (rs : List A) → All P rs → All P (delete_where p rs)
  All-delete P p [] hs = hs
  All-delete P p (r ∷ rs) (hr, hs) = elim (Bool-cases (p r)) [
    | inl e ↦ rw e (All-delete P p rs hs)
    | inr e ↦ rw e (hr, All-delete P p rs hs)
  ]

  pub find_where-some :
      (p : A → Bool) (rs : List A)
      → 0 < count_where p rs
      → (r : A) × (find_where p rs ≡ some r) × (p r ≡ true)
  find_where-some p [] n = absurd (omega arith)
  find_where-some p (r ∷ rs) n = elim (Bool-cases (p r)) [
    | inl hit ↦ (r, rw hit refl, hit)
    | inr miss ↦ rw miss (find_where-some p rs (rw miss at n))
  ]

  -- A search by what an update keeps: the row that the search found, updated where `p` selects it.
  pub find_where-update_map :
      (p q : A → Bool) (f : A → A) (rs : List A)
      → ((s : A) → q (f s) ≡ q s)
      → find_where q (update_where p f rs)
        ≡ elim (find_where q rs) [ none ↦ none | some r ↦ some (if p r then f r else r) ]
  find_where-update_map p q f [] h = refl
  find_where-update_map p q f (s ∷ rs) h = ground (arith, h s, find_where-update_map p q f rs h)

  -- A row that the search misses is found after the inserted row only.
  pub find_where-append_last :
      (q : A → Bool) (xs : List A) (y : A)
      → find_where q xs ≡ none
      → q y ≡ true
      → find_where q (xs ++ y ∷ []) ≡ some y
  find_where-append_last q [] y h k = ground arith
  find_where-append_last q (x ∷ xs) y h k = ground (arith, find_where-append_last q xs y)

  pub find_where-append_miss :
      (q : A → Bool) (xs : List A) (y : A)
      → q y ≡ false
      → find_where q (xs ++ y ∷ []) ≡ find_where q xs
  find_where-append_miss q [] y h = ground arith
  find_where-append_miss q (x ∷ xs) y h = ground (arith, find_where-append_miss q xs y)

  pub find_where-All {κ} :
      (P : A → Type κ) (q : A → Bool) (rs : List A) (r : A)
      → All P rs
      → find_where q rs ≡ some r
      → P r
  find_where-All P q [] r hs e = cc
  find_where-All P q (s ∷ rs) r (hs, h) e = elim (Bool-cases (q s)) [
    | inl hit ↦ let same : s ≡ r = ground arith in rw (← same) hs
    | inr miss ↦ find_where-All P q rs r h (rw miss at e)
  ]

  pub find_where_none→count :
      (q : A → Bool) (rs : List A) → find_where q rs ≡ none → count_where q rs ≡ 0
  find_where_none→count q [] h = refl
  find_where_none→count q (r ∷ rs) h = ground (arith, find_where_none→count q rs)

  -- Where `q` selects one row at most, `p` that implies it selects one exactly when the row found by
  -- `q` satisfies `p`.
  pub count_where-one :
      (p q : A → Bool) (rs : List A) (r : A)
      → ((s : A) → p s ≡ true → q s ≡ true)
      → count_where q rs ≤ 1
      → find_where q rs ≡ some r
      → count_where p rs ≡ (if p r then 1 else 0)
  count_where-one p q [] r hp u e = cc
  count_where-one p q (s ∷ rs) r hp u e =
      ground (arith, hp s, count_where_mono p q rs hp, count_where-one p q rs r hp)

  -- A deletion that spares the row that a search finds.
  pub find_where-delete_found :
      (p q : A → Bool) (rs : List A) (r : A)
      → find_where q rs ≡ some r
      → p r ≡ false
      → find_where q (delete_where p rs) ≡ some r
  find_where-delete_found p q [] r e h = cc
  find_where-delete_found p q (s ∷ rs) r e h = elim (Bool-cases (q s)) [
    | inl hit ↦
        let same : s ≡ r = ground arith in
        let spared : p s ≡ false = rw same h in rw (spared, hit) (ap some same)
    | inr miss ↦ ground (arith, find_where-delete_found p q rs r)
  ]

  pub length-delete :
      (p : A → Bool) (rs : List A) → length (delete_where p rs) + count_where p rs ≡ length rs
  length-delete p [] = refl
  length-delete p (r ∷ rs) = ground (arith, length-delete p rs)

  pub All-select : (p : A → Bool) (rs : List A) → All (λ r. p r ≡ true) (select_where p rs)
  All-select p [] = tt
  All-select p (r ∷ rs) = elim (Bool-cases (p r)) [
    | inl e ↦ rw e (e, All-select p rs)
    | inr e ↦ rw e (All-select p rs)
  ]

  -- Where `q` selects one row at most, it selects none after that row is deleted.
  pub find_where-delete_hit :
      (p q : A → Bool) (rs : List A) (r : A)
      → count_where q rs ≤ 1
      → find_where q rs ≡ some r
      → p r ≡ true
      → find_where q (delete_where p rs) ≡ none
  find_where-delete_hit p q [] r u e h = refl
  find_where-delete_hit p q (s ∷ rs) r u e h = elim (Bool-cases (q s)) [
    | inl hit ↦
        let same : s ≡ r = ground arith in
        let gone : p s ≡ true = rw same h in
        rw gone (
          count_where_none→find q (delete_where p rs)
            (ground (arith, count_where-delete_le p q rs)))
    | inr miss ↦ ground (arith, find_where-delete_hit p q rs r)
  ]

  pub update_where-append_last :
      (p : A → Bool) (f : A → A) (rs : List A) (r : A)
      → count_where p rs ≡ 0
      → p r ≡ true
      → update_where p f (rs ++ r ∷ []) ≡ rs ++ f r ∷ []
  update_where-append_last p f [] r h e = rw e refl
  update_where-append_last p f (s ∷ rs) r h e = ground (arith, update_where-append_last p f rs r)

  pub find_where-listed :
      (q : A → Bool) (rs : List A) (r : A)
      → find_where q rs ≡ some r
      → (earlier : List A) × ((later : List A) × (rs ≡ earlier ++ r ∷ later))
  find_where-listed q [] r e = absurd cc
  find_where-listed q (s ∷ rs) r e = elim (Bool-cases (q s)) [
    | inl hit ↦ let same : s ≡ r = ground arith in ([], (rs, ap (λ x. x ∷ rs) same))
    | inr miss ↦
        let (earlier, (later, listed)) = find_where-listed q rs r (ground arith) in
        (s ∷ earlier, (later, ap (λ xs. s ∷ xs) listed))
  ]
