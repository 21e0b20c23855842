-- ===== src/Domain/Draft/Deployable.antt =====
-- What an accepted draft holds (src/domain/validation.rs).
use solodock.Base.{
  ℕ, ◌+◌, ◌≤◌, Bool, false, List, ◌++◌, ◌≡◌, refl, All, any, map, ok, bind-ok, ok-injective, sym,
}
use solodock.Base.Text.{Text, same}
use solodock.Domain.Binds.{FileSystem}
use solodock.Domain.Draft.{DraftInput, ExistingSecrets, check_draft}
use solodock.Domain.Draft.Parts.{NormalizedDraft, DraftParts}
use solodock.Domain.Draft.Integrity.{Hashing}
use solodock.Domain.Draft.Normalize.{normalize_parts, finish_draft, normalize_draft_with_options}
use solodock.Domain.Mounts.{
  ManagedFileMetadata, file_targets, volume_targets, bind_targets, validate_volumes,
}
use solodock.Domain.Mounts.Overlap.{Disjoint, validate_mount_target_conflicts_iff}
use solodock.Domain.Ports.{validate_ports}
use solodock.Domain.Binds.{validate_binds_detailed_with_options}
use solodock.Deploy.Health.{health_deadline}
use solodock.Domain.Limits.{validate_health, validate_health-health_deadline}
use solodock.Domain.Environment.{normalize_environment, validate_order}
use solodock.Domain.Environment.Secrets.{public_bytes, secret_bytes, normalize_environment_sound}
use solodock.Domain.Files.{normalize_files}
use solodock.Domain.Files.Placed.{Entry, IsMountable, content_bytes}
use solodock.Domain.Files.Accepted.{normalize_files_sound}
use solodock.Domain.Networks.{normalize_networks_with_issues}
use solodock.Domain.Draft.Normalize.{check_storage, at_draft}
use solodock.Domain.Draft.Composed.{normalized_from}

-- What a container depends on: the environment keeps to its limit and no secret has the name of a
-- public entry, the files are read-only at safe targets and keep to their limit, no mount lies in
-- another, and the health of the container is decided in time.
abbrev pub IsDeployable :
    DraftInput → List (Text × Text) → List Entry → List (Text × Text) → List (Text × Text) → Type 0
IsDeployable input secret_environment files public_files secret_files =
    (public_bytes input.environment.public + secret_bytes secret_environment ≤ 262144)
    × (All (λ entry. any (λ p. same entry.0 p.key) input.environment.public ≡ false)
          secret_environment
        × (All IsMountable files
            × ((content_bytes public_files + content_bytes secret_files ≤ 2097152)
                × (Disjoint (
                      file_targets files
                      ++ (volume_targets 0 input.volumes ++ bind_targets 0 input.binds))
                    × (health_deadline input.health ≤ 3910)))))

module _ (fs : FileSystem) (hashing : Hashing) where
  check_storage-conflicts :
      (input : DraftInput) (roots : List (List Text)) (enforce : Bool)
      (files : List (ManagedFileMetadata × ℕ))
      → check_storage fs input roots enforce files ≡ ok tt
      → Disjoint
          (file_targets files ++ (volume_targets 0 input.volumes ++ bind_targets 0 input.binds))
  unfolding check_storage
  check_storage-conflicts input roots enforce files h =
      let (u, ports, h1) = bind-ok (validate_ports input.ports) _ _ h in
      let (v, volumes, h2) = bind-ok (validate_volumes input.volumes) _ _ h1 in
      let (identities, binds, h3) =
        bind-ok (validate_binds_detailed_with_options fs input.binds roots enforce) _ _ h2 in
      (validate_mount_target_conflicts_iff files input.volumes input.binds).0 h3

  normalize_parts_sound :
      (input : DraftInput) (existing : ExistingSecrets) (roots : List (List Text)) (enforce : Bool)
      (parts : DraftParts)
      → normalize_parts fs input existing roots enforce ≡ ok parts
      → IsDeployable input parts.secret_environment parts.files parts.public_files
          parts.secret_files
  unfolding normalize_parts
  normalize_parts_sound input existing roots enforce parts h =
      let (u, checked, h1) = bind-ok (check_draft input) _ _ h in
      let (environment, e2, h2) =
        bind-ok (normalize_environment input.environment existing.environment) _ _ h1 in
      let (v, ordered, h3) =
        bind-ok (validate_order input.environment.order environment.0 environment.1) _ _ h2 in
      let (files, e4, h4) = bind-ok (normalize_files input.files existing.files) _ _ h3 in
      let (w, stored_ok, h5) = bind-ok (check_storage fs input roots enforce files.0) _ _ h4 in
      let (networks, e6, h6) =
        bind-ok
          (at_draft (
            normalize_networks_with_issues input.owned_default_network
              input.service_discovery_enabled input.networks))
          _ _ h5 in
      let (x, healthy, h7) = bind-ok (validate_health input.health) _ _ h6 in
      let e = ok-injective _ _ h7 in
      let (bytes, (apart, answered)) =
        normalize_environment_sound input.environment existing.environment environment.0
          environment.1 e2 in
      let (mountable, (differ, contents)) =
        normalize_files_sound input.files existing.files files.0 files.1.0 files.1.1 e4 in
      rw (sym e) (
        bytes,
        (
          apart,
          (
            mountable,
            (
              contents,
              (
                check_storage-conflicts input roots enforce files.0 stored_ok,
                validate_health-health_deadline input.health healthy,
              ),
            ),
          ),
        ),
      )

  -- In an accepted draft the values of the environment have at most 262144 bytes in total, no secret
  -- has the name of a public entry, the files are read-only at safe targets and have at most 2097152
  -- bytes in total, no target of a file, volume or bind equals another or lies in it, and the health
  -- policy is decided within 3910 seconds.
  pub normalize_draft_sound :
      (input : DraftInput) (existing : ExistingSecrets) (hmac_key : Text) (roots : List (List Text))
      (enforce : Bool) (draft : NormalizedDraft)
      → normalize_draft_with_options fs hashing input existing hmac_key roots enforce ≡ ok draft
      → (files : List Entry) × ((draft.files ≡ map (λ (entry : Entry). entry.0) files)
          × IsDeployable input draft.secret_environment files draft.public_files draft.secret_files)
  unfolding finish_draft
  normalize_draft_sound input existing hmac_key roots enforce draft h =
      let (parts, (secrets, (files, (hash, (e1, (e2, (e3, (e4, e)))))))) =
        normalized_from fs hashing input existing hmac_key roots enforce draft h in
      rw e (parts.files, (refl, normalize_parts_sound input existing roots enforce parts e1))
