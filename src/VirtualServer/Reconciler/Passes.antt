-- ===== src/VirtualServer/Reconciler/Passes.antt =====
-- The passes over instances, each handler at one instance that the pass has listed.
use ocelot.Prelude.{
  ℕ, zero, suc, ◌-◌, ◌*◌, Bool, true, false, not, ◌&&◌, ◌||◌, Option, none, some, String, List, [],
  ◌∷◌, if◌then◌else◌, ltb, ◌==◌, nat_eq, string_eq, select,
}
use ocelot.Prelude.Int.{pos, ltb_ℤ, leb_ℤ}
use ocelot.Prelude.Map.{lookup}
use ocelot.VirtualServer.Domain.Instance.{InstanceState}
use ocelot.VirtualServer.Domain.Manifest.{ServiceSpec}
use ocelot.VirtualServer.Domain.Node.{NodeState, eligible_gpus}
use ocelot.VirtualServer.Reconciler.{Service, Outside, Store, seconds, set_state, release}
use ocelot.VirtualServer.Reconciler.Mounts.{
  local_volume_pinned_node, resolve_mounts, teardown_mounts,
}
use ocelot.VirtualServer.Scheduler.{Node, Scores, schedule, no_eligible_node, selected}
use ocelot.VirtualServer.Store.Allocations.{AllocationError, allocate_resources}
use ocelot.VirtualServer.Store.Instances.{
  Instance, Table, StoreError, assign_node, update_instance_state, update_runtime_handle,
  increment_retry_count,
}

pub data PassError : Type 0 where
  no_service no_node no_adapter not_mounted not_provisioned not_started : PassError
  refused : StoreError → PassError
  not_allocated : AllocationError → PassError

abbrev is_node_ready : Node → Bool
is_node_ready n = elim n.state [ NodeState.ready ↦ true | other_state ↦ false ]

-- The index of the first device that is eligible, if one is asked for.
unfoldable pub first_gpu : ServiceSpec → Node → Option ℕ
unfolding eligible_gpus
first_gpu spec n =
    if spec.resources.gpu.required
    then elim (eligible_gpus spec.resources.gpu.min_vram_mib n.gpu_devices) [
      | [] ↦ none
      | g ∷ gs ↦ some g.index
    ]
    else none

-- `scores` ranks the nodes, and `text` is an id of the scheduler as a string of the store.
module _ (scores : Scores) (text : List ℕ → String) where
  unfoldable pub with_id : String → List Node → List Node
  with_id id [] = []
  with_id id (n ∷ ns) = let rest = with_id id ns in if text n.id == id then n ∷ [] else rest

  -- The nodes that the scheduler is given.
  unfoldable pub eligible_nodes : Outside → Service → List Node → Store → List Node
  unfolding with_id local_volume_pinned_node
  eligible_nodes out svc nodes s =
      let ready = select is_node_ready nodes in
      let pinned = local_volume_pinned_node out svc.namespace svc.mounts s.volumes.volumes in
      if pinned == "" then ready else with_id pinned ready

  -- What follows the assignment: the reservation, and the attempt to undo the assignment without one.
  unfoldable pub reserve : Service → Node → ℕ → String → Store → Store × Option PassError
  unfolding allocate_resources first_gpu set_state
  reserve svc n now id s =
      let (resources, e) =
        allocate_resources id (text n.id) svc.spec.resources.cpu_threads svc.spec.resources.ram_mib
          (first_gpu svc.spec n) (seconds now) s.resources in
      elim e [
        | some bad ↦ (set_state id InstanceState.declared now s, some (not_allocated bad))
        | none ↦ (record s { resources = resources }, none)
      ]

  unfoldable pub once_assigned :
      Service → Node → ℕ → String → Store → Table × Option StoreError → Store × Option PassError
  unfolding reserve
  once_assigned svc n now id s (t, some bad) = (record s { instances = t }, some (refused bad))
  once_assigned svc n now id s (t, none) = reserve svc n now id (record s { instances = t })

  -- What follows the decision for the node `n`.
  unfoldable pub place : Service → Node → ℕ → String → Store → Store × Option PassError
  unfolding assign_node once_assigned
  place svc n now id s =
      once_assigned svc n now id s (assign_node id (text n.id) (seconds now) (λ t. t) s.instances)

  unfoldable pub schedule_instance :
      Outside → List Node → ℕ → String → Instance → Store → Store × Option PassError
  unfolding eligible_nodes schedule place
  schedule_instance out nodes now id i s = elim (lookup i.service_id out.services) [
    | none ↦ (s, some no_service)
    | some svc ↦ elim (schedule scores svc.spec (eligible_nodes out svc nodes s)).0 [
      | no_eligible_node ↦ (s, some no_node)
      | selected n ↦ place svc n now id s
    ]
  ]

-- The service of an instance, when an adapter is registered for its runtime.
unfoldable pub served_by : Outside → Instance → Option Service
served_by out i = elim (lookup i.service_id out.services) [
  | none ↦ none
  | some svc ↦ if out.has_adapter svc.spec.runtime then some svc else none
]

unfoldable pub provision_instance :
    Outside → ℕ → String → Instance → Store → Store × Option PassError
unfolding served_by update_instance_state resolve_mounts set_state update_runtime_handle
provision_instance out now id i s = elim (served_by out i) [
  | none ↦ (s, some no_adapter)
  | some svc ↦
      let (moved, e) =
        update_instance_state id InstanceState.provisioning (seconds now) (λ t. t) s.instances in
      elim e [
        | some bad ↦ (record s { instances = moved }, some (refused bad))
        | none ↦
            let (volumes, mounted) =
              resolve_mounts out svc.namespace i.node_id id svc.mounts (seconds now) s.volumes in
            let u = record s { instances = moved; volumes = volumes } in
            if not mounted
            then (set_state id InstanceState.failed now u, some not_mounted)
            else if not (out.provisions id)
            then (set_state id InstanceState.failed now u, some not_provisioned)
            else (record u { instances = update_runtime_handle id (seconds now) u.instances }, none)
      ]
]

unfoldable pub start_instance : Outside → ℕ → String → Instance → Store → Store × Option PassError
unfolding served_by update_instance_state set_state
start_instance out now id i s = elim (served_by out i) [
  | none ↦ (s, some no_adapter)
  | some svc ↦
      let (moved, e) =
        update_instance_state id InstanceState.starting (seconds now) (λ t. t) s.instances in
      let u = record s { instances = moved } in
      elim e [
        | some bad ↦ (u, some (refused bad))
        | none ↦
            if out.starts id
            then (set_state id InstanceState.running now u, none)
            else (set_state id InstanceState.failed now u, some not_started)
      ]
]

-- The mounts are torn down and the resources released before the state is set.
unfoldable pub shut_down : String → InstanceState → ℕ → Store → Store
unfolding teardown_mounts release set_state
shut_down id to now s = set_state id to now (release id now (teardown_mounts id now s))

unfoldable pub inspect_instance : Outside → ℕ → String → Instance → Store → Store
unfolding served_by shut_down set_state
inspect_instance out now id i s = elim (served_by out i) [
  | none ↦ s
  | some svc ↦
      if not (out.is_running id)
      then shut_down id InstanceState.failed now s
      else if not (out.is_healthy id)
      then set_state id InstanceState.degraded now s
      else s
]

-- `time.Since`, of a moment of the store
abbrev pub since : ℕ → ℕ → ℕ
since now then_ = now - then_ * 1_000_000_000

abbrev pub degraded_fail_timeout : ℕ
degraded_fail_timeout = 300_000_000_000

unfoldable pub handle_degraded_instance : Outside → ℕ → String → Instance → Store → Store
unfolding served_by shut_down set_state
handle_degraded_instance out now id i s = elim (served_by out i) [
  | none ↦ s
  | some svc ↦
      if out.is_recovered id
      then set_state id InstanceState.running now s
      else if ltb degraded_fail_timeout (since now i.updated_at)
      then shut_down id InstanceState.failed now s
      else s
]

unfoldable pub stop_instance : Outside → ℕ → String → Instance → Store → Store
unfolding served_by shut_down
stop_instance out now id i s = elim (served_by out i) [
  | none ↦ s
  | some svc ↦ shut_down id InstanceState.terminated now s
]

-- `delay *= 2`, as often as there were retries and at most `rounds` times.
unfoldable pub backoff : ℕ → ℕ → ℕ → ℕ
backoff zero retries delay = delay
backoff (suc rounds) zero delay = delay
backoff (suc rounds) (suc retries) delay = backoff rounds retries (delay * 2)

abbrev pub retry_base_delay : ℕ
retry_base_delay = 2_000_000_000

abbrev pub restarts : String → Bool
restarts policy = policy == "on-failure" || policy == "always"

-- The pass over failed instances. What `destroyInstance` does is outside the store.
unfoldable pub handle_failed_instance : Outside → ℕ → String → Instance → Store → Store
unfolding set_state release teardown_mounts increment_retry_count backoff
handle_failed_instance out now id i s = elim (lookup i.service_id out.services) [
  | none ↦ s
  | some svc ↦
      if not (restarts svc.spec.restart_policy)
      then set_state id InstanceState.terminated now s
      else if ltb_ℤ (pos 0) svc.maximum_attempts && leb_ℤ svc.maximum_attempts (pos i.retry_count)
      then set_state id InstanceState.terminated now s
      else if ltb (since now i.updated_at) (backoff 6 i.retry_count retry_base_delay)
      then s
      else let u = release id now (teardown_mounts id now s) in
        record u { instances = increment_retry_count id (seconds now) u.instances }
]
