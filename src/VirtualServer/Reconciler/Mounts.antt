-- ===== src/VirtualServer/Reconciler/Mounts.antt =====
-- `resolveMounts`, `localVolumePinnedNode` and `teardownMounts`: the mounts of an instance.
use ocelot.Prelude.{
  ℕ, Bool, true, false, not, ◌&&◌, ◌||◌, Option, none, some, String, List, [], ◌∷◌, if◌then◌else◌,
  ◌==◌, nat_eq, string_eq, select,
}
use ocelot.Prelude.Map.{Map, lookup}
use ocelot.VirtualServer.Domain.Mount.{VolumeMountState}
use ocelot.VirtualServer.Domain.Volume.{VolumeState}
use ocelot.VirtualServer.Reconciler.{MountDeclaration, Driver, Outside, Store, seconds}
use ocelot.VirtualServer.Store.Volumes.{
  Volume, Mount, Tables, update_mount_state, update_volume_state, update_volume_bound_node,
  bind_mount, has_active_mounts,
}

-- `GetVolumeByName`
unfoldable pub volume_named : String → String → Map String Volume → Option (String × Volume)
volume_named namespace name [] = none
volume_named namespace name ((id, v) ∷ vs) =
    let rest = volume_named namespace name vs in
    if v.namespace == namespace && v.name == name then some (id, v) else rest

abbrev pub is_ready : VolumeState → Bool
is_ready VolumeState.ready = true
is_ready _ = false

abbrev pub is_bound : VolumeState → Bool
is_bound VolumeState.bound = true
is_bound _ = false

-- One declaration, with the volume and its driver: the mount, its row, and the volume's new state.
unfoldable pub resolve_one :
    Driver → String → String → MountDeclaration → String → Volume → ℕ → Tables → Tables × Bool
unfolding bind_mount update_mount_state update_volume_bound_node update_volume_state
resolve_one drv node instance d id v now t =
    if not (drv.mounts id)
    then (t, false)
    else let (u, row) = bind_mount id instance d.target_path d.read_only t in
      elim row [
        | none ↦ (u, false)
        | some k ↦
            let active = update_mount_state k VolumeMountState.active now u in
            let bound =
              if v.bound_node_id == "" && drv.is_local
              then update_volume_bound_node id node now active
              else active in
            (
              if is_ready v.state
                  then (update_volume_state id VolumeState.bound now bound).0
                  else bound,
              true,
            )
      ]

-- The declarations in turn; the first failure ends the loop, and leaves what was mounted before it.
unfoldable pub resolve_mounts :
    Outside → String → String → String → List MountDeclaration → ℕ → Tables → Tables × Bool
unfolding volume_named resolve_one
resolve_mounts out namespace node instance [] now t = (t, true)
resolve_mounts out namespace node instance (d ∷ ds) now t =
    elim (volume_named namespace d.volume_name t.volumes) [
      | none ↦ (t, false)
      | some (id, v) ↦
          if not (is_ready v.state) && not (is_bound v.state)
          then (t, false)
          else elim (out.driver (out.class_of id)) [
            | none ↦ (t, false)
            | some drv ↦
                let (u, mounted) = resolve_one drv node instance d id v now t in
                elim mounted [
                  | false ↦ (u, false)
                  | true ↦ resolve_mounts out namespace node instance ds now u
                ]
          ]
    ]

-- The node of the first volume of a local class that has one, or the empty string.
unfoldable pub local_volume_pinned_node :
    Outside → String → List MountDeclaration → Map String Volume → String
unfolding volume_named
local_volume_pinned_node out namespace [] vs = ""
local_volume_pinned_node out namespace (d ∷ ds) vs =
    let rest = local_volume_pinned_node out namespace ds vs in
    elim (volume_named namespace d.volume_name vs) [
      | none ↦ rest
      | some (id, v) ↦ elim (out.driver (out.class_of id)) [
        | none ↦ rest
        | some drv ↦ if not drv.is_local || v.bound_node_id == "" then rest else v.bound_node_id
      ]
    ]

-- `ListMountsByInstance`
abbrev pub is_of : String → ℕ × Mount → Bool
is_of instance (k, m) = m.instance_id == instance

unfoldable pub is_held : VolumeMountState → Bool
is_held VolumeMountState.active = true
is_held VolumeMountState.pending = true
is_held _ = false

-- One mount: it is released, and its volume is ready again when no other mount holds it.
unfoldable pub teardown_one : ℕ → ℕ × Mount → Tables → Tables
unfolding is_held update_mount_state has_active_mounts update_volume_state
teardown_one now (k, m) t =
    let u = update_mount_state k VolumeMountState.released now t in
    if not (is_held m.state) then t else elim (lookup m.volume_id u.volumes) [
      | none ↦ u
      | some v ↦
          if is_bound v.state && not (has_active_mounts m.volume_id u.mounts)
          then (update_volume_state m.volume_id VolumeState.ready now u).0
          else u
    ]

unfoldable pub teardown_all : ℕ → List (ℕ × Mount) → Tables → Tables
unfolding teardown_one
teardown_all now [] t = t
teardown_all now (m ∷ ms) t = teardown_all now ms (teardown_one now m t)

unfoldable pub teardown_mounts : String → ℕ → Store → Store
unfolding teardown_all
teardown_mounts id now s = record s {
  volumes = teardown_all (seconds now) (select (is_of id) s.volumes.mounts) s.volumes;
}
