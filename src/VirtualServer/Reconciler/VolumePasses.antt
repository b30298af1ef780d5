-- ===== src/VirtualServer/Reconciler/VolumePasses.antt =====
-- The passes over volumes: those that are declared, those that are being released, and the quotas.
pub mod Quotas
use ocelot.Prelude.{
  ℕ, Bool, true, false, not, ◌&&◌, Option, none, some, String, List, [], ◌∷◌, if◌then◌else◌, any,
  string_eq, ◌==◌, select,
}
use ocelot.Prelude.Int.{ℤ, pos, ltb_ℤ, leb_ℤ}
use ocelot.Prelude.Map.{Map}
use ocelot.VirtualServer.Domain.Volume.{VolumeState}
use ocelot.VirtualServer.Reconciler.{Driver, Outside, Store, seconds}
use ocelot.VirtualServer.Reconciler.Mounts.{is_bound}
use ocelot.VirtualServer.Store.Volumes.{
  Volume, Tables, update_volume_state, update_volume_failure, delete_volume,
}

-- `UpdateVolumeState`, by a caller that drops the error.
unfoldable pub set_volume : String → VolumeState → ℕ → Store → Store
unfolding update_volume_state
set_volume id to now s = record s {
  volumes = (update_volume_state id to (seconds now) s.volumes).0;
}

unfoldable pub fail_volume : String → String → ℕ → Store → Store
unfolding update_volume_failure
fail_volume id reason now s = record s {
  volumes = update_volume_failure id reason (seconds now) s.volumes;
}

unfoldable pub provision_volume : Outside → ℕ → String → Store → Store
unfolding update_volume_state set_volume fail_volume
provision_volume out now id s = elim (out.driver (out.class_of id)) [
  | none ↦ s
  | some drv ↦ elim (update_volume_state id VolumeState.provisioning (seconds now) s.volumes).1 [
    | some bad ↦ s
    | none ↦
        let u = set_volume id VolumeState.provisioning now s in
        if drv.creates id
        then set_volume id VolumeState.ready now (record u { handles = id ∷ u.handles })
        else fail_volume id "driver create" now u
  ]
]

-- Released, and then deleted.
unfoldable pub remove_volume : String → ℕ → Store → Store
unfolding set_volume delete_volume
remove_volume id now s =
    let u = set_volume id VolumeState.released now s in
    record u { volumes = (delete_volume id u.volumes).0 }

unfoldable pub release_volume : Outside → ℕ → String → Store → Store
unfolding remove_volume fail_volume
release_volume out now id s =
    if any (λ h. h == id) s.handles
    then elim (out.driver (out.class_of id)) [
      | none ↦ fail_volume id "no driver" now s
      | some drv ↦
          if drv.deletes id then remove_volume id now s else fail_volume id "driver delete" now s
    ]
    else remove_volume id now s

unfoldable pub is_over : ℤ → ℤ → Bool
is_over capacity used = ltb_ℤ (pos 0) capacity && leb_ℤ capacity used

abbrev pub is_exceeded : VolumeState → Bool
is_exceeded VolumeState.quota_exceeded = true
is_exceeded _ = false

unfoldable pub check_quota : Outside → ℕ → String → Volume → Store → Store
unfolding is_over set_volume
check_quota out now id v s = elim (out.driver (out.class_of id)) [
  | none ↦ s
  | some drv ↦ elim (drv.used_mib id) [
    | none ↦ s
    | some used ↦
        let over = is_over (out.capacity_mib id) used in
        if over && is_bound v.state
        then set_volume id VolumeState.quota_exceeded now s
        else if not over && is_exceeded v.state
        then set_volume id VolumeState.bound now s
        else s
  ]
]

abbrev pub is_declared : VolumeState → Bool
is_declared VolumeState.declared = true
is_declared _ = false

abbrev pub is_being_released : VolumeState → Bool
is_being_released VolumeState.releasing = true
is_being_released _ = false

-- A loop over the volumes that are in a state when they are listed.
unfoldable pub for_volumes :
    (String → Volume → Store → Store) → List (String × Volume) → Store → Store
for_volumes f [] s = s
for_volumes f ((id, v) ∷ vs) s = for_volumes f vs (f id v s)

abbrev pub in_state : (VolumeState → Bool) → Store → List (String × Volume)
in_state p s = select (λ (id, v). p v.state) s.volumes.volumes

-- The quota is checked for the bound volumes first, and both lists are made beforehand.
unfoldable pub reconcile_volumes : Outside → ℕ → Store → Store
unfolding for_volumes provision_volume release_volume check_quota
reconcile_volumes out now s =
    let a = for_volumes (λ id v. provision_volume out now id) (in_state is_declared s) s in
    let b = for_volumes (λ id v. release_volume out now id) (in_state is_being_released a) a in
    for_volumes (check_quota out now) (in_state is_exceeded b)
      (for_volumes (check_quota out now) (in_state is_bound b) b)
