-- ===== src/Docker/Models.antt =====
-- The container record that Docker observations give (src/docker/models.rs).
use solodock.Base.{ℕ, Bool, Option, none, some, List, [], ◌∷◌, if◌then◌else◌}
use solodock.Base.Int.{ℤ}
use solodock.Base.Text.{same, Text}
use solodock.Registry.Identity.{ManifestDescriptor}

pub data ContainerStatus : Type 0 where
  missing created running paused restarting removing exited dead unknown : ContainerStatus

pub data HealthStatus : Type 0 where
  no_check starting healthy unhealthy unknown : HealthStatus

pub data MountKind : Type 0 where
  volume bind tmpfs : MountKind

pub record PortProjection : Type 0 where
  pub container_port : ℕ
  pub protocol : Text
  pub host_ip : Text
  pub host_port : ℕ

pub record MountProjection : Type 0 where
  pub kind : MountKind
  pub source : Option Text
  pub destination : Text
  pub read_only : Bool

pub record NetworkProjection : Type 0 where
  pub name : Text
  pub container_ip : Option Text
  pub aliases : List Text

-- A `HashMap<String, String>`: the first entry of a key counts.
abbrev pub Labels : Type 0
Labels = List (Text × Text)

unfoldable pub get : Text → Labels → Option Text
get key [] = none
get key ((k, v) ∷ labels) = if same k key then some v else get key labels

pub record ContainerRecord : Type 0 where
  pub id : Text
  pub name : Text
  pub labels : Labels
  pub status : ContainerStatus
  pub health : HealthStatus
  pub exit_code : Option ℤ
  pub restart_count : Option ℤ
  pub started_at : Option Text
  pub finished_at : Option Text
  pub configured_image_ref : Option Text
  pub image_id : Option Text
  pub manifest_descriptor : Option ManifestDescriptor
  pub ports : List PortProjection
  pub mounts : List MountProjection
  pub networks : List NetworkProjection
