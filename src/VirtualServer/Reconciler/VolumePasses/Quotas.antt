-- ===== src/VirtualServer/Reconciler/VolumePasses/Quotas.antt =====
-- What a check of the quota leaves of a volume.
use ocelot.Prelude.{
  ℕ, ◌≡◌, ◌⊎◌, inl, inr, refl, ap, ◌∙◌, none, some, String, string_eq, arith, Bool-cases,
}
use ocelot.Prelude.Int.{ℤ, pos, ◌<ℤ◌, ◌≤ℤ◌}
use ocelot.Prelude.Map.{lookup}
use ocelot.VirtualServer.Domain.Volume.{
  VolumeState, validate_volume_transition, is_source, allowed_volume,
}
use ocelot.VirtualServer.Reconciler.{Driver, Outside, Store, seconds}
use ocelot.VirtualServer.Reconciler.VolumePasses.{is_over, set_volume, check_quota}
use ocelot.VirtualServer.Store.Volumes.{Volume, update_volume_state}
use ocelot.VirtualServer.Store.Volumes.Release.{state_of, set_state-state}

set_volume-state :
    (id : String) (to : VolumeState) (now : ℕ) (v : Volume) (s : Store)
    → lookup id s.volumes.volumes ≡ some v
    → validate_volume_transition v.state to ≡ none
    → state_of id (set_volume id to now s).volumes ≡ some to
unfolding set_volume update_volume_state
set_volume-state id to now v s found fine =
    rw (update_volume_state, found, fine)
      (ground
        (arith, set_state-state id id to (seconds now) v s.volumes, string_eq.equal_iff id id))

state_of-found :
    (id : String) (v : Volume) (s : Store)
    → lookup id s.volumes.volumes ≡ some v
    → state_of id s.volumes ≡ some v.state
unfolding state_of
state_of-found id v s found = rw (state_of, found) refl

-- A check of the quota decides by the use alone: a volume that is bound, or over its quota, is over it
-- after the check exactly when it has a capacity and uses as much or more, and is bound otherwise.
pub check_quota_lem :
    (out : Outside) (now : ℕ) (id : String) (v : Volume) (drv : Driver) (used : ℤ) (s : Store)
    → lookup id s.volumes.volumes ≡ some v
    → out.driver (out.class_of id) ≡ some drv
    → drv.used_mib id ≡ some used
    → (v.state ≡ VolumeState.bound) ⊎ (v.state ≡ VolumeState.quota_exceeded)
    → let state = state_of id (check_quota out now id v s).volumes in
      ((pos 0 <ℤ out.capacity_mib id)
        × (out.capacity_mib id ≤ℤ used)
        × (state ≡ some VolumeState.quota_exceeded))
      ⊎ (((out.capacity_mib id ≤ℤ pos 0) ⊎ (used <ℤ out.capacity_mib id))
          × (state ≡ some VolumeState.bound))
unfolding check_quota is_over validate_volume_transition is_source allowed_volume
check_quota_lem out now id v drv used s found driven known was =
    let stays = state_of-found id v s found in
    elim (Bool-cases (is_over (out.capacity_mib id) used)) [
      | inl over ↦ inl (
        ground (arith, over),
        ground (arith, over),
        elim was [
          | inl bound ↦
              rw (check_quota, driven, known, over, bound)
                (set_volume-state id VolumeState.quota_exceeded now v s found (rw bound refl))
          | inr exceeded ↦
              rw (check_quota, driven, known, over, exceeded) (stays ∙ ap some exceeded)
        ],
      )
      | inr under ↦ inr (
        ground (arith, under),
        elim was [
          | inl bound ↦ rw (check_quota, driven, known, under, bound) (stays ∙ ap some bound)
          | inr exceeded ↦
              rw (check_quota, driven, known, under, exceeded)
                (set_volume-state id VolumeState.bound now v s found (rw exceeded refl))
        ],
      )
    ]
