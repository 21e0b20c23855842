-- ===== src/Retention.antt =====
-- The retention policy of an application (src/retention.rs): its row, and the releases that an
-- automatic clean-up keeps. A `HashSet` is a list without duplicates.
use solodock.Base.{
  ℕ, ◌<◌, Bool, true, false, ◌&&◌, ◌||◌, not, Option, none, some, List, [], ◌∷◌, leb, ◌==◌, any,
  length, if◌then◌else◌, Result, ok, err, String,
}
use solodock.Base.Int.{ℤ, pos, negsuc}
use solodock.Database.{Uuid}
pub mod Kept

pub record RetentionPolicy : Type 0 where
  pub enabled : Bool
  pub keep_versions : ℕ
  pub revision : Uuid
  pub last_checked_at : Option String
  pub last_status : Option String
  pub last_error_code : Option String

abbrev pub default : RetentionPolicy
default = record {
  enabled = false;
  keep_versions = 3;
  revision = 0;
  last_checked_at = none;
  last_status = none;
  last_error_code = none;
}

-- A row of `app_retention`; its columns `keep_versions` and `revision` are not yet checked.
pub record RetentionRow : Type 0 where
  pub enabled : Bool
  pub keep_versions : ℤ
  pub revision : String
  pub last_checked_at : Option String
  pub last_status : Option String
  pub last_error_code : Option String

pub data CleanupError : Type 0 where
  record_invalid : CleanupError

-- `(1..=100).contains(&keep)`, with the value as `u16`.
unfoldable pub keep_of : ℤ → Option ℕ
keep_of (pos n) = if leb 1 n && leb n 100 then some n else none
keep_of (negsuc n) = none

-- `parse_str` of the `uuid` crate is a parameter.
module _ (parse_str : String → Option Uuid) where
  unfoldable pub load : Option RetentionRow → Result CleanupError RetentionPolicy
  unfolding keep_of
  load none = ok default
  load (some row) = elim (keep_of row.keep_versions) [
    | none ↦ err CleanupError.record_invalid
    | some keep ↦ elim (parse_str row.revision) [
      | none ↦ err CleanupError.record_invalid
      | some revision ↦ ok (record {
        enabled = row.enabled;
        keep_versions = keep;
        revision = revision;
        last_checked_at = row.last_checked_at;
        last_status = row.last_status;
        last_error_code = row.last_error_code;
      })
    ]
  ]

abbrev pub contains : Uuid → List Uuid → Bool
contains id = any (λ other. other == id)

-- `HashSet::insert`.
unfoldable pub insert : Uuid → List Uuid → List Uuid
insert id set = if contains id set then set else id ∷ set

-- The loop of `retained_releases`.
unfoldable pub retain_successes : ℕ → List Uuid → List Uuid → List Uuid
unfolding insert
retain_successes keep retained [] = retained
retain_successes keep retained (release ∷ successes) =
    let rest = retain_successes keep (insert release retained) successes in
    if leb keep (length retained) then retained else rest

unfoldable pub retained_releases : Option Uuid → ℕ → List Uuid → List Uuid
unfolding retain_successes
retained_releases none keep successes = retain_successes keep [] successes
retained_releases (some active) keep successes = retain_successes keep (active ∷ []) successes
