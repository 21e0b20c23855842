-- ===== src/Domain/Draft/Parts.antt =====
-- A normalized draft, its parts, and the orders of ports and volumes (src/domain/validation.rs).
use solodock.Base.{ℕ, Bool, not, ◌==◌, leb, ltb, Option, List, [], ◌∷◌, ◌++◌, map, if◌then◌else◌}
use solodock.Base.Text.{Text, lit, same, is_empty}
use solodock.Base.Table.{select_where}
use solodock.Database.{Uuid}
use solodock.Deploy.Health.{HealthPolicy}
use solodock.Domain.Ports.{PortInput, PortProtocol, protocol_eq}
use solodock.Domain.Mounts.{VolumeInput, BindMountInput, ManagedFileMetadata}
use solodock.Domain.Environment.{PublicEnvInput}
use solodock.Domain.Networks.{NetworkInput}
use solodock.Domain.Sorting.{text_leb}
use solodock.Domain.Draft.Integrity.{ConfigMetadata}

pub record NormalizedDraft : Type 0 where
  pub security_profile : Option Text
  pub display_name : Text
  pub discovery_image_ref : Text
  pub credential_ref : Option Uuid
  pub auto_deploy_enabled : Bool
  pub auto_deploy_acknowledged : Bool
  pub poll_interval_seconds : ℕ
  pub stop_grace_period_seconds : ℕ
  pub public_environment : List PublicEnvInput
  pub secret_environment : List (Text × Text)
  pub files : List ManagedFileMetadata
  pub public_files : List (Text × Text)
  pub secret_files : List (Text × Text)
  pub ports : List PortInput
  pub volumes : List VolumeInput
  pub binds : List BindMountInput
  pub owned_default_network : Bool
  pub service_discovery_enabled : Bool
  pub networks : List NetworkInput
  pub health : HealthPolicy
  pub metadata : ConfigMetadata

-- `known_secrets`: the values that are not empty.
unfoldable pub known_secrets : NormalizedDraft → List Text
known_secrets draft =
    select_where (λ value. not (is_empty value))
      (map (λ (entry : Text × Text). entry.1) (draft.secret_environment ++ draft.secret_files))

-- The parts of a draft that are checked and brought into order, as the first half of
-- `normalize_draft_with_options` leaves them.
pub record DraftParts : Type 0 where
  pub public_environment : List PublicEnvInput
  pub secret_environment : List (Text × Text)
  pub files : List (ManagedFileMetadata × ℕ)
  pub public_files : List (Text × Text)
  pub secret_files : List (Text × Text)
  pub networks : List NetworkInput

abbrev pub number_leb : ℕ → ℕ → Bool → Bool
number_leb m n rest = if m == n then rest else ltb m n

-- The order of host address, host port, protocol and container port.
unfoldable pub port_leb : PortInput → PortInput → Bool
unfolding text_leb
port_leb left right =
    if same left.host_ip right.host_ip
    then number_leb left.host_port right.host_port (
        if protocol_eq left.protocol right.protocol
        then leb left.container_port right.container_port
        else protocol_eq left.protocol PortProtocol.tcp)
    else text_leb left.host_ip right.host_ip

unfoldable pub insert_port : PortInput → List PortInput → List PortInput
unfolding port_leb
insert_port port [] = port ∷ []
insert_port port (first ∷ ports) =
    let rest = insert_port port ports in
    if port_leb port first then port ∷ first ∷ ports else first ∷ rest

unfoldable pub sort_ports : List PortInput → List PortInput
unfolding insert_port
sort_ports [] = []
sort_ports (port ∷ ports) = insert_port port (sort_ports ports)

abbrev pub volume_sort_key : VolumeInput → Text
volume_sort_key (VolumeInput.owned logical_name target) = lit "0:" ++ logical_name
volume_sort_key (VolumeInput.external name target) = lit "1:" ++ name
