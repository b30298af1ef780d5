-- ===== src/VirtualServer/Reconciler/Teardown.antt =====
-- What `teardownMounts` and `ReleaseAllocation` leave of an instance in the store.
use ocelot.Prelude.{
  ℕ, ◌≡◌, ◌≢◌, inl, inr, refl, true, false, not, ◌&&◌, none, some, String, List, [], ◌∷◌,
  if◌then◌else◌, ◌==◌, nat_eq, string_eq, select, Any, at_first, at_other, arith, Option-cases,
  Bool-cases,
}
use ocelot.Prelude.Map.{Map, lookup, lookup-insert, lookup-insert_self}
use ocelot.VirtualServer.Domain.Mount.{VolumeMountState}
use ocelot.VirtualServer.Reconciler.{Store, seconds, release}
use ocelot.VirtualServer.Reconciler.Mounts.{
  is_of, is_held, is_bound, teardown_one, teardown_all, teardown_mounts,
}
use ocelot.VirtualServer.Store.Allocations.{get_active_allocation, release_allocation}
use ocelot.VirtualServer.Store.Allocations
use ocelot.VirtualServer.Store.Volumes.{
  Mount, Tables, update_mount_state, mark_mount, update_volume_state, has_active_mounts,
}
use ocelot.VirtualServer.Domain.Volume.{VolumeState, validate_volume_transition}
use ocelot.VirtualServer.Store.Volumes.Release.{set_state-mounts}

release_allocation-inactive :
    (id : String) (now : ℕ) (t : Allocations.Tables)
    → get_active_allocation id (release_allocation id now t) ≡ none
unfolding release_allocation get_active_allocation
release_allocation-inactive id now t = elim (Option-cases (get_active_allocation id t)) [
  | inl idle ↦ rw (release_allocation, idle) idle
  | inr (a, held) ↦
      rw
        (
          release_allocation,
          held,
          get_active_allocation,
          lookup-insert_self id (record a { released_at = some now }) t.allocations,
        )
        refl
]

-- Every mount of an instance that is held has a snapshot in a list that says so.
IsListed : String → List (ℕ × Mount) → Tables → Type 0
IsListed id ms t =
    (k : ℕ) (m : Mount)
    → lookup k t.mounts ≡ some m
    → m.instance_id ≡ id
    → is_held m.state ≡ true
    → Any (λ (j, n). (j ≡ k) × (is_held n.state ≡ true)) ms

update_mount_state-released :
    (j k : ℕ) (m : Mount) (now : ℕ) (t : Tables)
    → lookup k (update_mount_state j VolumeMountState.released now t).mounts ≡ some m
    → is_held m.state ≡ true
    → (j ≢ k) × (lookup k t.mounts ≡ some m)
unfolding update_mount_state mark_mount is_held
update_mount_state-released j k m now t h held = elim (Option-cases (lookup j t.mounts)) [
  | inl absent ↦ let same = rw (update_mount_state, absent) at h in (λ e. cc, same)
  | inr (old, found) ↦
      let new =
        rw
          (
            update_mount_state,
            found,
            lookup-insert j k (mark_mount VolumeMountState.released now old) t.mounts,
          )
          at h in
      (
        ground (arith, new, held, nat_eq.equal_iff j k),
        ground (arith, new, held, nat_eq.equal_iff j k),
      )
]

mounts-update_volume_state :
    (id : String) (to : VolumeState) (now : ℕ) (t : Tables)
    → (update_volume_state id to now t).0.mounts ≡ t.mounts
unfolding update_volume_state
mounts-update_volume_state id to now t = elim (Option-cases (lookup id t.volumes)) [
  | inl absent ↦ rw (update_volume_state, absent) refl
  | inr (v, found) ↦ elim (Option-cases (validate_volume_transition v.state to)) [
    | inr (e, bad) ↦ rw (update_volume_state, found, bad) refl
    | inl fine ↦ rw (update_volume_state, found, fine) (set_state-mounts id to now v t)
  ]
]

mounts-teardown_one :
    (now k : ℕ) (m : Mount) (t : Tables)
    → (teardown_one now (k, m) t).mounts ≡ (
        if is_held m.state
        then (update_mount_state k VolumeMountState.released now t).mounts
        else t.mounts)
unfolding teardown_one
mounts-teardown_one now k m t =
    let u = update_mount_state k VolumeMountState.released now t in
    elim (Bool-cases (is_held m.state)) [
      | inr free ↦ rw (teardown_one, free) refl
      | inl held ↦ elim (Option-cases (lookup m.volume_id u.volumes)) [
        | inl absent ↦ rw (teardown_one, held, absent) refl
        | inr (v, found) ↦
            elim (Bool-cases (is_bound v.state && not (has_active_mounts m.volume_id u.mounts))) [
              | inr stays ↦ rw (teardown_one, held, found, stays) refl
              | inl frees ↦
                  rw (teardown_one, held, found, frees)
                    (mounts-update_volume_state m.volume_id VolumeState.ready now u)
            ]
      ]
    ]

Any-others {ι κ} :
    {E : Type ι} {P : E → Type κ} {x : E} {xs : List E} → Any P (x ∷ xs) → ¬ P x → Any P xs
Any-others (at_first p) none_here = absurd (none_here p)
Any-others (at_other a) none_here = a

IsListed-teardown_one :
    (id : String) (now k : ℕ) (m : Mount) (ms : List (ℕ × Mount)) (t : Tables)
    → IsListed id ((k, m) ∷ ms) t
    → IsListed id ms (teardown_one now (k, m) t)
unfolding IsListed
IsListed-teardown_one id now k m ms t h j n at who held = elim (Bool-cases (is_held m.state)) [
  | inr free ↦
      Any-others (h j n (rw (mounts-teardown_one now k m t, free) at at) who held) (λ (e, kept). cc)
  | inl kept ↦
      let (other_key, was) =
        update_mount_state-released k j n now t (rw (mounts-teardown_one now k m t, kept) at at)
          held in
      Any-others (h j n was who held) (λ (e, _). other_key e)
]

-- After the loop no mount of the instance is held.
IsListed-teardown_all :
    (id : String) (now : ℕ) (ms : List (ℕ × Mount)) (t : Tables)
    → IsListed id ms t
    → IsListed id [] (teardown_all now ms t)
unfolding teardown_all
IsListed-teardown_all id now [] t h = h
IsListed-teardown_all id now ((k, m) ∷ ms) t h =
    IsListed-teardown_all id now ms (teardown_one now (k, m) t)
      (IsListed-teardown_one id now k m ms t h)

listed_at_first :
    (id : String) (all : Map ℕ Mount) (k : ℕ) (m : Mount)
    → lookup k all ≡ some m
    → m.instance_id ≡ id
    → is_held m.state ≡ true
    → Any (λ (j, n). (j ≡ k) × (is_held n.state ≡ true)) (select (is_of id) all)
unfolding lookup select
listed_at_first id [] k m found who held = cc
listed_at_first id ((j, n) ∷ all) k m found who held = elim (Bool-cases (j == k)) [
  | inr miss ↦
      let later = listed_at_first id all k m (rw (lookup, miss) at found) who held in
      elim (Bool-cases (n.instance_id == id)) [
        | inl its ↦ rw its (at_other later)
        | inr not_its ↦ rw not_its later
      ]
  | inl hit ↦
      let same = rw (lookup, hit) at found in
      let its : (n.instance_id == id) ≡ true =
        ground (arith, same, who, string_eq.equal_iff n.instance_id id) in
      rw its (at_first (ground (arith, nat_eq.equal_iff j k, hit), ground (arith, same, held)))
]

-- Nothing is left of an instance: no reservation, and no mount that is held.
pub record IsCleared (id : String) (s : Store) : Type 0 where
  pub unreserved : get_active_allocation id s.resources ≡ none
  pub unmounted :
      (k : ℕ) (m : Mount)
      → lookup k s.volumes.mounts ≡ some m
      → m.instance_id ≡ id
      → is_held m.state ≡ false

unlisted :
    (id : String) (t : Tables) (k : ℕ) (m : Mount)
    → IsListed id [] t
    → lookup k t.mounts ≡ some m
    → m.instance_id ≡ id
    → is_held m.state ≡ false
unfolding IsListed
unlisted id t k m h at who = elim (Bool-cases (is_held m.state)) [
  | inr free ↦ free
  | inl held ↦ elim (h k m at who held) [ ]
]

pub cleared :
    (id : String) (now : ℕ) (s : Store) → IsCleared id (release id now (teardown_mounts id now s))
unfolding release teardown_mounts IsListed
cleared id now s = record {
  unreserved = release_allocation-inactive id (seconds now) s.resources;
  unmounted = λ k m at who.
      unlisted id (teardown_mounts id now s).volumes k m
        (IsListed-teardown_all id (seconds now) (select (is_of id) s.volumes.mounts) s.volumes
          (λ j n. listed_at_first id s.volumes.mounts j n))
        at who;
}
