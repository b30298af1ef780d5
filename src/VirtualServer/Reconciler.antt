-- ===== src/VirtualServer/Reconciler.antt =====
-- virtualserver/reconciler/reconciler.go: the passes over instances, their mounts and their resources.
-- The reconciler is alone with the store. Adapters and drivers answer from outside: an `Outside` has
-- what they answer during one pass. Moments are nanoseconds, the store's are seconds.
pub mod Counts
pub mod Mounts
pub mod Passes
pub mod Placing
pub mod Restarts
pub mod Stopping
pub mod VolumePasses
pub mod Whole
pub mod Teardown
use ocelot.Prelude.{ℕ, ◌/◌, Bool, Option, none, some, String, List}
use ocelot.Prelude.Int.{ℤ}
use ocelot.Prelude.Map.{Map}
use ocelot.VirtualServer.Domain.Instance.{InstanceState}
use ocelot.VirtualServer.Domain.Manifest.{ServiceSpec}
use ocelot.VirtualServer.Store.Allocations
use ocelot.VirtualServer.Store.Allocations.{release_allocation}
use ocelot.VirtualServer.Store.Instances
use ocelot.VirtualServer.Store.Instances.{update_instance_state}
use ocelot.VirtualServer.Store.Volumes

pub record MountDeclaration : Type 0 where
  pub volume_name : String
  pub target_path : String
  pub read_only : Bool

-- What the passes read of a service: its manifest and its desired count.
pub record Service : Type 0 where
  pub namespace : String
  pub spec : ServiceSpec
  pub maximum_attempts : ℤ
  pub mounts : List MountDeclaration
  pub desired_count : ℤ

pub record Driver : Type 0 where
  pub is_local : Bool
  pub mounts : String → Bool  -- whether `Mount` succeeds, by the volume's id
  pub creates : String → Bool
  pub deletes : String → Bool
  pub used_mib : String → Option ℤ  -- `Stat`, when it succeeds and the volume is available

-- The manifests, which no pass changes, and the answers to the calls: of the adapters by the id of the
-- instance, and of the drivers by the class of a volume.
pub record Outside : Type 0 where
  pub services : Map ℕ Service
  pub has_adapter : String → Bool
  pub provisions : String → Bool
  pub starts : String → Bool
  pub is_running : String → Bool  -- no error, and the status says so
  pub is_healthy : String → Bool
  pub is_recovered : String → Bool
  pub class_of : String → String
  pub capacity_mib : String → ℤ
  pub driver : String → Option Driver

-- The tables that the passes change.
pub record Store : Type 0 where
  pub instances : Instances.Table
  pub resources : Allocations.Tables
  pub volumes : Volumes.Tables
  pub handles : List String  -- the volumes with a driver's handle

abbrev pub seconds : ℕ → ℕ
seconds now = now / 1_000_000_000

-- `UpdateInstanceState`, by a caller that drops the error.
unfoldable pub set_state : String → InstanceState → ℕ → Store → Store
unfolding update_instance_state
set_state id to now s = record s {
  instances = (update_instance_state id to (seconds now) (λ t. t) s.instances).0;
}

unfoldable pub release : String → ℕ → Store → Store
unfolding release_allocation
release id now s = record s { resources = release_allocation id (seconds now) s.resources }
