-- ===== src/VirtualServer/Reconciler/Counts/Missing.antt =====
-- How many instances a service has after the pass.
use ocelot.Prelude.{
  ℕ, zero, suc, ◌+◌, ◌≤◌, ◌<◌, ◌≡◌, ◌≢◌, ◌⊎◌, refl, ap, ◌∙◌, none, String, [], ◌∷◌, if◌then◌else◌,
  ◌==◌, nat_eq, string_eq, arith,
}
use ocelot.Prelude.Int.{pos, ◌-ℤ◌, ◌<ℤ◌, ◌≤ℤ◌, pos_part}
use ocelot.Prelude.Map.{lookup, insert, lookup-insert}
use ocelot.VirtualServer.Domain.Instance.{InstanceState, is_terminal_instance_state}
use ocelot.VirtualServer.Reconciler.{Service, Store, seconds}
use ocelot.VirtualServer.Reconciler.Counts.{
  is_active, num_of, active_of, enlist, create, create_missing, reconcile_count,
}
use ocelot.VirtualServer.Store.Instances.{Instance, Table, create_instance}

active_of-insert_fresh :
    (service : ℕ) (id : String) (i : Instance) (t : Table)
    → lookup id t ≡ none
    → active_of service (insert id i t)
      ≡ active_of service t + (if is_active service i then 1 else 0)
unfolding active_of lookup insert
active_of-insert_fresh service id i [] h = ground arith
active_of-insert_fresh service id i ((j, k) ∷ t) h =
    ground (arith, active_of-insert_fresh service id i t)

abbrev row : ℕ → String → ℕ → Instance
row service path now = record {
  service_id = service;
  node_id = "";
  vs_path = path;
  state = InstanceState.declared;
  retry_count = 0;
  updated_at = seconds now;
}

create_instance_lem :
    (id : String) (service : ℕ) (path : String) (now : ℕ) (t : Table)
    → lookup id t ≡ none
    → create_instance id service path (seconds now) t ≡ (insert id (row service path now) t, none)
unfolding create_instance
create_instance_lem id service path now t free = rw (create_instance, free) refl

instances-create :
    (id : String) (service : ℕ) (path : String) (now : ℕ) (s : Store)
    → lookup id s.instances ≡ none
    → (create id service path now s).instances ≡ insert id (row service path now) s.instances
unfolding create enlist
instances-create id service path now s free =
    ap (λ r. (enlist id s r).instances) (create_instance_lem id service path now s.instances free)

module _ (fresh path : ℕ → ℕ → String) (service now : ℕ) where
  -- The ids of the slots of a range are not in use, and differ.
  abbrev pub IsFree : ℕ → ℕ → Table → Type 0
  IsFree from to t =
      ((j : ℕ) → from ≤ j → j < to → lookup (fresh service j) t ≡ none)
      × ((j k : ℕ) → from ≤ j → j < k → k < to → fresh service j ≢ fresh service k)

  create_missing-active :
      (other slot needed : ℕ) (s : Store)
      → IsFree slot (slot + needed) s.instances
      → active_of other (create_missing fresh path service now slot needed s).instances
        ≡ active_of other s.instances + (if service == other then needed else 0)
  unfolding create_missing is_terminal_instance_state
  create_missing-active other slot zero s free = ground arith
  create_missing-active other slot (suc needed) s (free, apart) =
      let id = fresh service slot in
      let i = row service (path service slot) now in
      let u = create id service (path service slot) now s in
      let unused = free slot (omega arith) (omega arith) in
      let new = instances-create id service (path service slot) now s unused in
      create_missing-active other (suc slot) needed u (
        λ j h l.
            rw (new, lookup-insert id (fresh service j) i s.instances)
              (ground (
                arith,
                string_eq.equal_iff id (fresh service j),
                apart slot j (omega arith) h (omega (arith, l)),
                free j (omega (arith, h)) (omega (arith, l)),
              )),
        λ j k h l m. apart j k (omega (arith, h)) l (omega (arith, m)),
      )
      ∙ ground
          (arith, ap (active_of other) new, active_of-insert_fresh other id i s.instances unused)

-- A service that wants a positive number of instances has that many that are not terminal after the
-- pass, or as many as before if it had as many or more, provided the ids given out for its next slots,
-- as many as it wants instances, are new and differ. Another service has as many as before.
pub reconcile_count_lem :
    (fresh path : ℕ → ℕ → String) (now service other : ℕ) (svc : Service) (s : Store)
    → (let slot = num_of service s.instances in
        IsFree fresh path service now slot (slot + pos_part svc.desired_count) s.instances)
    → pos 0 <ℤ svc.desired_count
    → other ≢ service
    → let u = reconcile_count fresh path now service svc s in
      (((svc.desired_count ≤ℤ pos (active_of service s.instances))
          × (active_of service u.instances ≡ active_of service s.instances))
        ⊎ ((pos (active_of service s.instances) <ℤ svc.desired_count)
            × (pos (active_of service u.instances) ≡ svc.desired_count)))
      × (active_of other u.instances ≡ active_of other s.instances)
unfolding reconcile_count ◌-ℤ◌
reconcile_count_lem fresh path now service other svc s (free, apart) wants differs =
    let slot = num_of service s.instances in
    let needed = pos_part (svc.desired_count -ℤ pos (active_of service s.instances)) in
    let few : needed ≤ pos_part svc.desired_count = ground (arith, wants) in
    let ids : IsFree fresh path service now slot (slot + needed) s.instances = (
      λ j h l. free j h (omega (arith, l, few)),
      λ j k h l m. apart j k h l (omega (arith, m, few)),
    ) in
    let its = create_missing-active fresh path service now service slot needed s ids in
    let others = create_missing-active fresh path service now other slot needed s ids in
    ground (
      arith,
      its,
      others,
      wants,
      differs,
      nat_eq.equal_iff service service,
      nat_eq.equal_iff service other,
    )
