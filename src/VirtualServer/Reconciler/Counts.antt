-- ===== src/VirtualServer/Reconciler/Counts.antt =====
-- `reconcileDesiredCount` and `reconcileNodeHeartbeats`: the instances that are missing, and the nodes
-- that have fallen silent.
pub mod Missing
use ocelot.Prelude.{
  ℕ, zero, suc, ◌-◌, ◌*◌, Bool, not, ◌&&◌, Option, none, some, String, List, [], ◌∷◌, if◌then◌else◌,
  leb, ◌==◌, nat_eq, string_eq,
}
use ocelot.Prelude.Int.{ℤ, pos, ◌-ℤ◌, pos_part, leb_ℤ}
use ocelot.Prelude.Map.{Map}
use ocelot.VirtualServer.Domain.Instance.{InstanceState, is_terminal_instance_state}
use ocelot.VirtualServer.Domain.Node.{NodeState}
use ocelot.VirtualServer.Reconciler.{Service, Store, seconds}
use ocelot.VirtualServer.Reconciler.Passes.{since}
use ocelot.VirtualServer.Store.Instances.{Instance, Table, StoreError, create_instance}
use ocelot.VirtualServer.Store.Nodes
use ocelot.VirtualServer.Store.Nodes.{Node, update_node_state}

abbrev pub is_active : ℕ → Instance → Bool
is_active service i = i.service_id == service && not (is_terminal_instance_state i.state)

-- The rows of a service, and those of them that are not terminal.
unfoldable pub num_of : ℕ → Table → ℕ
num_of service [] = zero
num_of service ((id, i) ∷ t) =
    let rest = num_of service t in if i.service_id == service then suc rest else rest

unfoldable pub active_of : ℕ → Table → ℕ
unfolding is_terminal_instance_state
active_of service [] = zero
active_of service ((id, i) ∷ t) =
    let rest = active_of service t in if is_active service i then suc rest else rest

-- The new row can be referred to by allocations and mounts.
unfoldable pub enlist : String → Store → Table × Option StoreError → Store
enlist id s (t, some bad) = s
enlist id s (t, none) = record s {
  instances = t;
  resources = record s.resources { instances = id ∷ s.resources.instances };
  volumes = record s.volumes { instances = id ∷ s.volumes.instances };
}

unfoldable pub create : String → ℕ → String → ℕ → Store → Store
unfolding enlist create_instance
create id service path now s =
    enlist id s (create_instance id service path (seconds now) s.instances)

-- `fresh` is the id that `uuid.New` gives in a slot of a service, and `path` the printed path.
module _ (fresh path : ℕ → ℕ → String) where
  unfoldable pub create_missing : ℕ → ℕ → ℕ → ℕ → Store → Store
  unfolding create
  create_missing service now slot zero s = s
  create_missing service now slot (suc needed) s =
      create_missing service now (suc slot) needed
        (create (fresh service slot) service (path service slot) now s)

  unfoldable pub reconcile_count : ℕ → ℕ → Service → Store → Store
  unfolding create_missing num_of active_of
  reconcile_count now service svc s =
      if leb_ℤ svc.desired_count (pos 0)
      then s
      else create_missing service now (num_of service s.instances)
          (pos_part (svc.desired_count -ℤ pos (active_of service s.instances))) s

  unfoldable pub reconcile_desired_count : ℕ → Map ℕ Service → Store → Store
  unfolding reconcile_count
  reconcile_desired_count now [] s = s
  reconcile_desired_count now ((service, svc) ∷ svcs) s =
      reconcile_desired_count now svcs (reconcile_count now service svc s)

-- A ready node whose last heartbeat is too old.
unfoldable pub is_expired : ℕ → ℕ → Node → Bool
is_expired ttl now n = elim n.state [
  | NodeState.ready ↦ elim n.last_heartbeat [
    | none ↦ Bool.false
    | some last ↦ not (leb (since now last) ttl)
  ]
  | other_state ↦ Bool.false
]

-- The loop over the nodes that were ready when they were listed.
unfoldable pub expire_nodes : ℕ → ℕ → Map String Node → Nodes.Table → Nodes.Table
unfolding is_expired update_node_state
expire_nodes ttl now [] t = t
expire_nodes ttl now ((id, n) ∷ ns) t =
    let degraded = (update_node_state id NodeState.degraded (seconds now) (λ u. u) t).0 in
    expire_nodes ttl now ns (if is_expired ttl now n then degraded else t)

unfoldable pub reconcile_node_heartbeats : ℕ → ℕ → Nodes.Table → Nodes.Table
unfolding expire_nodes
reconcile_node_heartbeats ttl now t = expire_nodes ttl now t t
