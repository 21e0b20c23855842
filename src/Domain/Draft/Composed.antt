-- ===== src/Domain/Draft/Composed.antt =====
-- The integrity of an accepted draft (src/domain/validation.rs).
use solodock.Base.{Bool, true, List, [], ◌∷◌, ◌≡◌, refl, ok, bind-ok, ok-injective, sym}
use solodock.Base.Text.{Text, lit, same_refl}
use solodock.Domain.Errors.{at_path, at_path-ok}
use solodock.Domain.Binds.{FileSystem}
use solodock.Domain.Draft.{DraftInput, ExistingSecrets}
use solodock.Domain.Draft.Parts.{NormalizedDraft, DraftParts}
use solodock.Domain.Draft.Integrity.{
  Hashing, hmacs, file_hashes, config_hash, same_entries, verify_config_integrity,
}
use solodock.Domain.Draft.Normalize.{
  normalize_parts, draft_metadata, finish_draft, normalize_draft_with_options,
}

same_entries_refl : (xs : List (Text × Text)) → same_entries xs xs ≡ true
unfolding same_entries
same_entries_refl [] = refl
same_entries_refl ((k, v) ∷ xs) = rw (same_refl k, same_refl v, same_entries_refl xs) refl

-- The secrets of a draft as a later request finds them stored.
abbrev pub stored : NormalizedDraft → ExistingSecrets
stored draft = record { environment = draft.secret_environment; files = draft.secret_files }

module _ (fs : FileSystem) (hashing : Hashing) where
  -- An accepted draft is made of accepted parts, of HMACs and of a hash.
  pub normalized_from :
      (input : DraftInput) (existing : ExistingSecrets) (hmac_key : Text) (roots : List (List Text))
      (enforce : Bool) (draft : NormalizedDraft)
      → normalize_draft_with_options fs hashing input existing hmac_key roots enforce ≡ ok draft
      → (parts : DraftParts) × ((secret_hmacs : List (Text × Text)) × ((file_hmacs : List
              (Text × Text))
            × ((hash : Text) × ((normalize_parts fs input existing roots enforce ≡ ok parts)
                  × ((hmacs hashing hmac_key parts.secret_environment ≡ ok secret_hmacs)
                      × ((hmacs hashing hmac_key parts.secret_files ≡ ok file_hmacs)
                          × ((config_hash hashing
                                  (draft_metadata hashing input parts secret_hmacs file_hmacs)
                                  parts.public_environment
                                  parts.public_files
                                ≡ ok hash)
                              × (draft
                                  ≡ finish_draft input parts
                                      (record (draft_metadata hashing input parts secret_hmacs
                                        file_hmacs) { config_sha256 = hash })))))))))
  unfolding normalize_draft_with_options
  normalized_from input existing hmac_key roots enforce draft h =
      let (parts, e1, h1) = bind-ok (normalize_parts fs input existing roots enforce) _ _ h in
      let (secret_hmacs, e2, h2) =
        bind-ok
          (at_path (lit "environment.secrets") "CONFIG_INVALID"
            (hmacs hashing hmac_key parts.secret_environment))
          _ _ h1 in
      let (file_hmacs, e3, h3) =
        bind-ok (at_path (lit "files") "CONFIG_INVALID" (hmacs hashing hmac_key parts.secret_files))
          _ _ h2 in
      let metadata = draft_metadata hashing input parts secret_hmacs file_hmacs in
      let (hash, e4, h4) =
        bind-ok
          (at_path (lit "draft") "CONFIG_INVALID"
            (config_hash hashing metadata parts.public_environment parts.public_files))
          _ _ h3 in
      (
        parts,
        (
          secret_hmacs,
          (
            file_hmacs,
            (
              hash,
              (
                e1,
                (
                  at_path-ok (lit "environment.secrets") "CONFIG_INVALID"
                      (hmacs hashing hmac_key parts.secret_environment) secret_hmacs e2,
                  (
                    at_path-ok (lit "files") "CONFIG_INVALID"
                        (hmacs hashing hmac_key parts.secret_files) file_hmacs e3,
                    (
                      at_path-ok (lit "draft") "CONFIG_INVALID"
                          (config_hash hashing metadata parts.public_environment parts.public_files)
                          hash e4,
                      sym (ok-injective _ _ h4),
                    ),
                  ),
                ),
              ),
            ),
          ),
        ),
      )

  verify_finished :
      (input : DraftInput) (parts : DraftParts) (hmac_key : Text)
      (secret_hmacs file_hmacs : List (Text × Text)) (hash : Text)
      → hmacs hashing hmac_key parts.secret_environment ≡ ok secret_hmacs
      → hmacs hashing hmac_key parts.secret_files ≡ ok file_hmacs
      → config_hash hashing
          (draft_metadata hashing input parts secret_hmacs file_hmacs)
          parts.public_environment
          parts.public_files
        ≡ ok hash
      → verify_config_integrity hashing
          (record (draft_metadata hashing input parts secret_hmacs file_hmacs) {
            config_sha256 = hash;
          })
          parts.public_environment
          parts.public_files
          (record { environment = parts.secret_environment; files = parts.secret_files })
          hmac_key
        ≡ ok tt
  unfolding verify_config_integrity draft_metadata
  verify_finished input parts hmac_key secret_hmacs file_hmacs hash e2 e3 e4 =
      rw
        (
          e2,
          e3,
          same_entries_refl secret_hmacs,
          same_entries_refl file_hmacs,
          same_entries_refl (file_hashes hashing parts.public_files),
          e4,
          same_refl hash,
        )
        refl

  -- The metadata of an accepted draft passes the check of integrity, against the draft's own public
  -- environment, public files and secrets, under the same key.
  pub normalize_draft-verify :
      (input : DraftInput) (existing : ExistingSecrets) (hmac_key : Text) (roots : List (List Text))
      (enforce : Bool) (draft : NormalizedDraft)
      → normalize_draft_with_options fs hashing input existing hmac_key roots enforce ≡ ok draft
      → verify_config_integrity hashing draft.metadata draft.public_environment draft.public_files
          (stored draft)
          hmac_key
        ≡ ok tt
  unfolding finish_draft
  normalize_draft-verify input existing hmac_key roots enforce draft h =
      let (parts, (secrets, (files, (hash, (e1, (e2, (e3, (e4, e)))))))) =
        normalized_from input existing hmac_key roots enforce draft h in
      rw e (verify_finished input parts hmac_key secrets files hash e2 e3 e4)
