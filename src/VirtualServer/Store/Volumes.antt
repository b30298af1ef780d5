-- ===== src/VirtualServer/Store/Volumes.antt =====
-- virtualserver/store/volume_store.go: volumes, their mounts, and their release.
-- The manifest and the driver's handle are stored and returned whole, and are left out.
pub mod History
pub mod Release
use ocelot.Prelude.{
  ℕ, suc, ◌≡◌, refl, Bool, true, false, ◌&&◌, ◌||◌, not, Option, none, some, List, [], ◌∷◌, String,
  arith, if◌then◌else◌, is_some, ◌==◌, nat_eq, string_eq, any, map,
}
use ocelot.Prelude.Map.{Map, lookup, insert, delete}
use ocelot.VirtualServer.Domain.Mount.{VolumeMountState}
use ocelot.VirtualServer.Domain.Volume.{VolumeState, VolumeError, validate_volume_transition}

pub record Volume : Type 0 where
  pub namespace : String
  pub name : String
  pub state : VolumeState
  pub bound_node_id : String
  pub failure_reason : String
  pub created_at : ℕ
  pub updated_at : ℕ

pub record Mount : Type 0 where
  pub volume_id : String
  pub instance_id : String
  pub target_path : String
  pub read_only : Bool
  pub state : VolumeMountState
  pub mounted_at : Option ℕ
  pub unmounted_at : Option ℕ

pub record Tables : Type 0 where
  pub volumes : Map String Volume
  pub instances : List String
  pub mounts : Map ℕ Mount
  pub next_mount_id : ℕ  -- AUTOINCREMENT

pub data StoreError : Type 0 where
  not_found conflict constraint_failed : StoreError
  rejected : VolumeError → StoreError

-- `state NOT IN ('released')`.
unfoldable pub is_unreleased : VolumeMountState → Bool
is_unreleased VolumeMountState.released = false
is_unreleased _ = true

unfoldable pub holds_volume : String → ℕ × Mount → Bool
holds_volume id (k, m) = m.volume_id == id && is_unreleased m.state

-- `SELECT COUNT(*) … > 0`.
unfoldable pub has_active_mounts : String → Map ℕ Mount → Bool
unfolding holds_volume
has_active_mounts id ms = any (holds_volume id) ms

-- A row of the mounts that refers to the volume.
unfoldable pub is_referenced : String → Map ℕ Mount → Bool
is_referenced id ms = any (λ e. e.1.volume_id == id) ms

same_name : String → String → String × Volume → Bool
same_name namespace name (k, v) = v.namespace == namespace && v.name == name

-- `CreateVolume`: the state that the caller passes, or `declared` for the empty string (`none`).
unfoldable pub create_volume :
    String → String → String → Option VolumeState → String → ℕ → Tables → Tables × Option StoreError
unfolding same_name
create_volume id namespace name state node now t =
    if is_some (lookup id t.volumes) || any (same_name namespace name) t.volumes
    then (t, some conflict)
    else (
      record t {
        volumes =
            insert id
              (record {
                namespace = namespace;
                name = name;
                state = elim state [ none ↦ VolumeState.declared | some s ↦ s ];
                bound_node_id = node;
                failure_reason = "";
                created_at = now;
                updated_at = now;
              })
              t.volumes;
      },
      none,
    )

unfoldable pub set_state : String → VolumeState → ℕ → Volume → Tables → Tables
set_state id to now v t = record t {
  volumes = insert id (record v { state = to; updated_at = now }) t.volumes;
}

unfoldable pub update_volume_state : String → VolumeState → ℕ → Tables → Tables × Option StoreError
unfolding set_state
update_volume_state id to now t = elim (lookup id t.volumes) [
  | none ↦ (t, some not_found)
  | some v ↦ elim (validate_volume_transition v.state to) [
    | some e ↦ (t, some (rejected e))
    | none ↦ (set_state id to now v t, none)
  ]
]

-- An `UPDATE` of no row succeeds.
unfoldable pub update_volume_bound_node : String → String → ℕ → Tables → Tables
update_volume_bound_node id node now t = elim (lookup id t.volumes) [
  | none ↦ t
  | some v ↦ record t {
    volumes = insert id (record v { bound_node_id = node; updated_at = now }) t.volumes;
  }
]

unfoldable pub update_volume_failure : String → String → ℕ → Tables → Tables
update_volume_failure id reason now t = elim (lookup id t.volumes) [
  | none ↦ t
  | some v ↦ record t {
    volumes =
        insert id
          (record v { state = VolumeState.failed; failure_reason = reason; updated_at = now })
          t.volumes;
  }
]

unfoldable pub is_released : VolumeState → Bool
is_released VolumeState.released = true
is_released _ = false

-- The foreign key of the mounts refuses to delete a volume that a mount row refers to.
unfoldable pub delete_volume : String → Tables → Tables × Option StoreError
unfolding is_released
delete_volume id t = elim (lookup id t.volumes) [
  | none ↦ (t, some not_found)
  | some v ↦
      if is_released v.state
      then (if is_referenced id t.mounts
          then (t, some constraint_failed)
          else (record t { volumes = delete id t.volumes }, none))
      else (t, some conflict)
]

unfoldable pub is_releasing : VolumeState → Bool
is_releasing VolumeState.releasing = true
is_releasing VolumeState.released = true
is_releasing _ = false

unfoldable pub start_volume_release : String → ℕ → Tables → Tables × Option StoreError
unfolding is_releasing set_state
start_volume_release id now t = elim (lookup id t.volumes) [
  | none ↦ (t, some not_found)
  | some v ↦
      if is_releasing v.state
      then (t, none)
      else elim (validate_volume_transition v.state VolumeState.releasing) [
        | some e ↦ (t, some (rejected e))
        | none ↦
            if has_active_mounts id t.mounts
            then (t, some conflict)
            else (set_state id VolumeState.releasing now v t, none)
      ]
]

unfoldable pub has_instance : String → List String → Bool
has_instance i is = any (λ j. j == i) is

-- `BindMount`; both foreign keys must be met. The result is the new row's id.
unfoldable pub bind_mount : String → String → String → Bool → Tables → Tables × Option ℕ
unfolding has_instance
bind_mount volume instance path ro t =
    if is_some (lookup volume t.volumes) && has_instance instance t.instances
    then (
      record t {
        mounts =
            insert t.next_mount_id
              (record {
                volume_id = volume;
                instance_id = instance;
                target_path = path;
                read_only = ro;
                state = VolumeMountState.pending;
                mounted_at = none;
                unmounted_at = none;
              })
              t.mounts;
        next_mount_id = suc t.next_mount_id;
      },
      some t.next_mount_id,
    )
    else (t, none)

unfoldable pub mark_mount : VolumeMountState → ℕ → Mount → Mount
mark_mount VolumeMountState.active now m = record m {
  state = VolumeMountState.active;
  mounted_at = some now;
}
mark_mount VolumeMountState.released now m = record m {
  state = VolumeMountState.released;
  unmounted_at = some now;
}
mark_mount to now m = record m { state = to }

unfoldable pub update_mount_state : ℕ → VolumeMountState → ℕ → Tables → Tables
unfolding mark_mount
update_mount_state id to now t = elim (lookup id t.mounts) [
  | none ↦ t
  | some m ↦ record t { mounts = insert id (mark_mount to now m) t.mounts }
]
