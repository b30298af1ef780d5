-- ===== src/VirtualServer/Store/Volumes/History.antt =====
-- What holds after any history of calls on the volumes and their mounts.
use ocelot.Prelude.{
  false, ℕ, ◌≤◌, ◌≡◌, refl, ◌∙◌, inl, inr, Bool, true, ◌&&◌, Option, none, some, List, [], ◌∷◌,
  String, arith, is_some, nat_eq, string_eq, Option-cases, Bool-cases,
}
use ocelot.Prelude.Map.{lookup, lookup-insert, any-insert_self, any-insert_fresh, any-insert_alike}
use text.Mathlib.TextEquality.{eq_iff}
use ocelot.VirtualServer.Domain.Mount.{VolumeMountState}
use ocelot.VirtualServer.Domain.Volume.{VolumeState, validate_volume_transition, allowed_volume}
use ocelot.VirtualServer.Store.Volumes.{
  Volume, Mount, Tables, set_state, create_volume, update_volume_state, delete_volume,
  start_volume_release, is_referenced, update_volume_failure, update_volume_bound_node, bind_mount,
  has_instance, mark_mount, update_mount_state,
}
use ocelot.VirtualServer.Store.Volumes.Release.{
  state_of, set_state-state, start_volume_release_cases,
}

-- The calls that write to the tables.
pub data Call : Type 0 where
  creates : String → String → String → Option VolumeState → String → ℕ → Call
  updates : String → VolumeState → ℕ → Call
  pins : String → String → ℕ → Call
  fails : String → String → ℕ → Call
  deletes : String → Call
  releases : String → ℕ → Call
  binds : String → String → String → Bool → Call
  marks : ℕ → VolumeMountState → ℕ → Call

pub step : Call → Tables → Tables
step (creates id namespace name state node now) t =
    (create_volume id namespace name state node now t).0
step (updates id to now) t = (update_volume_state id to now t).0
step (pins id node now) t = update_volume_bound_node id node now t
step (fails id reason now) t = update_volume_failure id reason now t
step (deletes id) t = (delete_volume id t).0
step (releases id now) t = (start_volume_release id now t).0
step (binds volume instance path ro) t = (bind_mount volume instance path ro t).0
step (marks id to now) t = update_mount_state id to now t

unfoldable pub run : List Call → Tables → Tables
unfolding step
run [] t = t
run (c ∷ cs) t = run cs (step c t)

-- The ids that AUTOINCREMENT has not given out are in no row.
pub record IsValid (t : Tables) : Type 0 where
  pub unused : (k : ℕ) → t.next_mount_id ≤ k → lookup k t.mounts ≡ none

-- What a call keeps: the ids, and each reference to a volume.
record Keeps (t u : Tables) : Type 0 where
  ids : IsValid t → IsValid u
  references :
      (id : String)
      → IsValid t
      → is_referenced id t.mounts ≡ true
      → is_referenced id u.mounts ≡ true

-- A call that leaves the mounts alone.
same_mounts : (t u : Tables) → u.mounts ≡ t.mounts → u.next_mount_id ≡ t.next_mount_id → Keeps t u
same_mounts t u m n = record {
  ids = λ v. record { unused = λ k h. rw m (v.unused k (rw (← n) h)) };
  references = λ id v r. rw m r;
}

bind_mount-Keeps :
    (volume instance path : String) (ro : Bool) (t : Tables)
    → Keeps t (bind_mount volume instance path ro t).0
unfolding bind_mount
bind_mount-Keeps volume instance path ro t =
    elim (Bool-cases (is_some (lookup volume t.volumes) && has_instance instance t.instances)) [
      | inr refused ↦ rw refused (same_mounts t t refl refl)
      | inl good ↦ rw good (record {
        ids = λ v. record {
          unused = λ k h. rw (lookup-insert t.next_mount_id k) (ground (arith, v.unused k));
        };
        references = λ id v r.
            unfold is_referenced in
            any-insert_fresh _ t.next_mount_id _ t.mounts (v.unused t.next_mount_id (omega arith))
              r;
      })
    ]

mark_mount-volume :
    (to : VolumeMountState) (now : ℕ) (m : Mount) → (mark_mount to now m).volume_id ≡ m.volume_id
unfolding mark_mount
mark_mount-volume VolumeMountState.active now m = refl
mark_mount-volume VolumeMountState.released now m = refl
mark_mount-volume _ now m = refl

update_mount_state-Keeps :
    (id : ℕ) (to : VolumeMountState) (now : ℕ) (t : Tables)
    → Keeps t (update_mount_state id to now t)
unfolding update_mount_state is_referenced
update_mount_state-Keeps id to now t = elim (Option-cases (lookup id t.mounts)) [
  | inl absent ↦ rw (absent, update_mount_state) (same_mounts t t refl refl)
  | inr (m, e) ↦
      rw (e, update_mount_state)
        (record {
          ids = λ v. record {
            unused = λ k h. rw (lookup-insert id k) (ground (arith, v.unused k, v.unused id));
          };
          references = λ volume v r.
              any-insert_alike _ id (mark_mount to now m) m t.mounts e
                (λ j h. rw (mark_mount-volume to now m))
              ∙ r;
        })
]

update_volume_state-Keeps :
    (id : String) (to : VolumeState) (now : ℕ) (t : Tables)
    → Keeps t (update_volume_state id to now t).0
unfolding update_volume_state set_state
update_volume_state-Keeps id to now t = elim (Option-cases (lookup id t.volumes)) [
  | inl absent ↦ rw (absent, update_volume_state) (same_mounts t t refl refl)
  | inr (v, e) ↦ elim (Option-cases (validate_volume_transition v.state to)) [
    | inl ok ↦ rw (e, update_volume_state, ok) (same_mounts t _ refl refl)
    | inr (x, bad) ↦ rw (e, update_volume_state, bad) (same_mounts t t refl refl)
  ]
]

delete_volume-Keeps : (id : String) (t : Tables) → Keeps t (delete_volume id t).0
unfolding delete_volume
delete_volume-Keeps id t = same_mounts t (delete_volume id t).0 (ground arith) (ground arith)

create_volume-Keeps :
    (id namespace name : String) (state : Option VolumeState) (node : String) (now : ℕ) (t : Tables)
    → Keeps t (create_volume id namespace name state node now t).0
unfolding create_volume
create_volume-Keeps id namespace name state node now t =
    same_mounts t (create_volume id namespace name state node now t).0 (ground arith) (ground arith)

update_volume_bound_node-Keeps :
    (id node : String) (now : ℕ) (t : Tables) → Keeps t (update_volume_bound_node id node now t)
unfolding update_volume_bound_node
update_volume_bound_node-Keeps id node now t = same_mounts t _ (ground arith) (ground arith)

update_volume_failure-Keeps :
    (id reason : String) (now : ℕ) (t : Tables) → Keeps t (update_volume_failure id reason now t)
unfolding update_volume_failure
update_volume_failure-Keeps id reason now t = same_mounts t _ (ground arith) (ground arith)

start_volume_release-Keeps :
    (id : String) (now : ℕ) (t : Tables) → Keeps t (start_volume_release id now t).0
unfolding set_state
start_volume_release-Keeps id now t =
    start_volume_release_cases (λ r. Keeps t r.0) id now t (λ e. same_mounts t t refl refl)
      (λ v e b. same_mounts t t refl refl) (λ v e ok free. same_mounts t _ refl refl)

step-Keeps : (c : Call) (t : Tables) → Keeps t (step c t)
unfolding step
step-Keeps (creates id namespace name state node now) t =
    create_volume-Keeps id namespace name state node now t
step-Keeps (updates id to now) t = update_volume_state-Keeps id to now t
step-Keeps (pins id node now) t = update_volume_bound_node-Keeps id node now t
step-Keeps (fails id reason now) t = update_volume_failure-Keeps id reason now t
step-Keeps (deletes id) t = delete_volume-Keeps id t
step-Keeps (releases id now) t = start_volume_release-Keeps id now t
step-Keeps (binds volume instance path ro) t = bind_mount-Keeps volume instance path ro t
step-Keeps (marks id to now) t = update_mount_state-Keeps id to now t

run-Keeps : (cs : List Call) (t : Tables) → Keeps t (run cs t)
unfolding run
run-Keeps [] t = record { ids = λ v. v; references = λ id v r. r }
run-Keeps (c ∷ cs) t =
    let now = step-Keeps c t in
    let rest = run-Keeps cs (step c t) in
    record {
      ids = λ v. rest.ids (now.ids v);
      references = λ id v r. rest.references id (now.ids v) (now.references id v r);
    }

delete_volume_referenced :
    (id : String) (t : Tables)
    → is_referenced id t.mounts ≡ true
    → (is_some (delete_volume id t).1 ≡ true) × ((delete_volume id t).0 ≡ t)
unfolding delete_volume
delete_volume_referenced id t r = ground arith

bind_mount_reference :
    (volume instance path : String) (ro : Bool) (k : ℕ) (t : Tables)
    → (bind_mount volume instance path ro t).1 ≡ some k
    → is_referenced volume (bind_mount volume instance path ro t).0.mounts ≡ true
unfolding bind_mount is_referenced
bind_mount_reference volume instance path ro k t h =
    elim (Bool-cases (is_some (lookup volume t.volumes) && has_instance instance t.instances)) [
      | inr refused ↦ cc (rw refused at h)
      | inl good ↦
          rw good (any-insert_self _ t.next_mount_id _ t.mounts ((eq_iff volume volume).1 refl))
    ]

-- Once a mount has been bound to a volume, no later history of calls makes `DeleteVolume` succeed for
-- it: mount rows are never removed, not even when released, and the foreign key holds the volume.
pub mounted_never_deleted :
    (volume instance path : String) (ro : Bool) (k : ℕ) (cs : List Call) (t : Tables)
    → IsValid t
    → (bind_mount volume instance path ro t).1 ≡ some k
    → let u = run cs (bind_mount volume instance path ro t).0 in
      (is_some (delete_volume volume u).1 ≡ true) × ((delete_volume volume u).0 ≡ u)
mounted_never_deleted volume instance path ro k cs t v h =
    let t' = (bind_mount volume instance path ro t).0 in
    let valid = (bind_mount-Keeps volume instance path ro t).ids v in
    let referenced = bind_mount_reference volume instance path ro k t h in
    delete_volume_referenced volume (run cs t')
      ((run-Keeps cs t').references volume valid referenced)

update_volume_failure-row :
    (id reason : String) (now : ℕ) (v : Volume) (t : Tables)
    → lookup id t.volumes ≡ some v
    → lookup id (update_volume_failure id reason now t).volumes
      ≡ some (record v { state = VolumeState.failed; failure_reason = reason; updated_at = now })
unfolding update_volume_failure
update_volume_failure-row id reason now v t e =
    rw (e, update_volume_failure, lookup-insert id id, (eq_iff id id).1 refl)

-- `UpdateVolumeFailure` sidesteps the table of transitions: it moves a released volume to `failed`,
-- a transition that the table does not have, and the volume can then be declared anew.
pub failure_revives :
    (id reason : String) (now later : ℕ) (t : Tables)
    → state_of id t ≡ some VolumeState.released
    → let u = update_volume_failure id reason now t in
      (allowed_volume VolumeState.released VolumeState.failed ≡ false)
      × (state_of id u ≡ some VolumeState.failed)
      × (state_of id (update_volume_state id VolumeState.declared later u).0
          ≡ some VolumeState.declared)
unfolding update_volume_state state_of validate_volume_transition allowed_volume
failure_revives id reason now later t h = elim (Option-cases (lookup id t.volumes)) [
  | inl absent ↦ cc (rw (absent, state_of) at h)
  | inr (v, e) ↦
      let row = update_volume_failure-row id reason now v t e in
      (
        refl,
        rw (row, state_of),
        rw (row, update_volume_state, set_state-state, (eq_iff id id).1 refl),
      )
]
