-- ===== src/Domain/Binds/Source.antt =====
-- Where an accepted bind source lies (src/domain/validation.rs).
use solodock.Domain.Binds.{
  check_link, is_sensitive, is_below, BindIdentity, validate_bind_source, identify, check_links,
  FileSystem,
}
use solodock.Base.{
  Bool, true, false, List, [], ◌∷◌, ◌++◌, ◌≡◌, refl, Option, none, some, Result, ok, err, ensure,
  ensure_iff, sequence_iff, ok_or, ap, sym, ◌∙◌, ◌>>=◌, ◌>>◌, both_true, not-true,
}
use solodock.Base.Table.{find_where_sound, find_where-listed}
use solodock.Base.Text.{Text}
use solodock.Domain.Errors.{DomainError}
use solodock.Domain.Paths.{components, is_absolute, has_parent_dir}
use solodock.Domain.Binds.Plan.{Below, is_below_iff}

-- Every path from `current` down to the last part is there and is no symbolic link.
abbrev pub Linkless : FileSystem → List Text → List Text → Type 0
Linkless fs current [] = Unit
Linkless fs current (part ∷ rest) =
    (fs.is_symlink (current ++ part ∷ []) ≡ some false) × Linkless fs (current ++ part ∷ []) rest

check_link_sound : (link : Option Bool) → check_link link ≡ ok tt → link ≡ some false
unfolding check_link
check_link_sound none h = absurd cc
check_link_sound (some true) h = absurd cc
check_link_sound (some false) h = refl

check_links_sound :
    (fs : FileSystem) (current parts : List Text)
    → check_links fs current parts ≡ ok tt
    → Linkless fs current parts
unfolding check_links
check_links_sound fs current [] h = tt
check_links_sound fs current (part ∷ rest) h =
    let (now, later) = (sequence_iff _ _).0 h in
    (check_link_sound _ now, check_links_sound fs (current ++ part ∷ []) rest later)

-- What the checks found of an accepted source.
pub record Contained (fs : FileSystem) (source : Text) (allowed_roots : List (List Text))
    (identity : BindIdentity) : Type 0 where
  pub absolute : is_absolute source ≡ true
  pub no_parent : has_parent_dir source ≡ false
  pub not_sensitive : is_sensitive (components source) ≡ false
  pub linkless : Linkless fs [] (components source)
  pub root : List Text
  pub earlier : List (List Text)
  pub later : List (List Text)
  pub allowed : allowed_roots ≡ earlier ++ root ∷ later
  pub below : Below (components source) root
  pub canonical : fs.canonicalize (components source) ≡ some identity.path
  pub canonical_root : List Text
  pub resolved : fs.canonicalize root ≡ some canonical_root
  pub inside : Below identity.path canonical_root

pass {ℓ μ} :
    {E : Type μ} {A : Type ℓ} (m : Result E (Unit {0})) (k : Result E A) (a : A)
    → m >> k ≡ ok a
    → (m ≡ ok tt) × (k ≡ ok a)
pass (ok u) k a h = (refl, h)
pass (err e) k a h = absurd cc

given {ℓ κ μ} :
    {E : Type μ} {A : Type κ} {B : Type ℓ} (o : Option A) (e : E) (f : A → Result E B) (b : B)
    → (ok_or o e >>= f) ≡ ok b
    → (a : A) × (o ≡ some a) × (f a ≡ ok b)
given none e f b h = absurd cc
given (some a) e f b h = (a, refl, h)

path_or : List Text → Result DomainError BindIdentity → List Text
path_or path (ok identity) = identity.path
path_or path (err error) = path

moved-Below : (path other base : List Text) → path ≡ other → Below path base → Below other base
moved-Below path other base e (part, rest, h) = (part, rest, sym e ∙ h)

identify_sound :
    (fs : FileSystem) (canonical root : List Text) (identity : BindIdentity)
    → identify fs canonical root ≡ ok identity
    → (canonical ≡ identity.path) × Below identity.path root
unfolding identify path_or
identify_sound fs canonical root identity h =
    let (below, rest) =
      pass (ensure (is_below canonical root) DomainError.bind_outside_allowed_root) _ identity h in
    let (found, there, next) =
      given (fs.directory canonical) DomainError.config_invalid _ identity rest in
    let (ids, directory, last) = given found DomainError.config_invalid _ identity next in
    let same : canonical ≡ identity.path = ap (path_or canonical) last in
    (
      same,
      moved-Below canonical identity.path root same
          ((is_below_iff canonical root).0 ((ensure_iff _ _).0 below)),
    )

-- An accepted source is an absolute path without `..`, at or below no sensitive directory; no part of it
-- is a symbolic link; it lies strictly below a path of the list of allowed roots, and its canonical path
-- strictly below the canonical path of that root.
pub validate_bind_source_sound :
    (fs : FileSystem) (source : Text) (allowed_roots : List (List Text)) (identity : BindIdentity)
    → validate_bind_source fs source allowed_roots ≡ ok identity
    → Contained fs source allowed_roots identity
unfolding validate_bind_source
validate_bind_source_sound fs source allowed_roots identity h =
    let (shape, h1) = pass _ _ _ h in
    let (absolute, parent) = both_true _ _ ((ensure_iff _ _).0 shape) in
    let (safe, h2) = pass _ _ _ h1 in
    let (root, found, h3) = given _ _ _ _ h2 in
    let (links, h4) = pass _ _ _ h3 in
    let (canonical, resolved, h5) = given _ _ _ _ h4 in
    let (canonical_root, resolved_root, h6) = given _ _ _ _ h5 in
    let (earlier, (later, listed)) =
      find_where-listed (is_below (components source)) allowed_roots root found in
    let (same, inside) = identify_sound fs canonical canonical_root identity h6 in
    record {
      absolute = absolute;
      no_parent = not-true _ parent;
      not_sensitive = not-true _ ((ensure_iff _ _).0 safe);
      linkless = check_links_sound fs [] (components source) links;
      root = root;
      earlier = earlier;
      later = later;
      allowed = listed;
      below =
          (is_below_iff (components source) root).0
            (find_where_sound (is_below (components source)) allowed_roots root found);
      canonical = resolved ∙ ap some same;
      canonical_root = canonical_root;
      resolved = resolved_root;
      inside = inside;
    }
