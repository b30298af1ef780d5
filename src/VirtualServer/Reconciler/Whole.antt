-- ===== src/VirtualServer/Reconciler/Whole.antt =====
-- `reconcile`: the passes in their order.
use ocelot.Prelude.{ℕ, Bool, true, false, String, List, [], ◌∷◌, select}
use ocelot.VirtualServer.Domain.Instance.{InstanceState}
use ocelot.VirtualServer.Reconciler.{Outside, Store}
use ocelot.VirtualServer.Reconciler.Counts.{reconcile_desired_count, reconcile_node_heartbeats}
use ocelot.VirtualServer.Reconciler.Passes.{
  schedule_instance, provision_instance, start_instance, inspect_instance, handle_degraded_instance,
  stop_instance, handle_failed_instance,
}
use ocelot.VirtualServer.Reconciler.VolumePasses.{reconcile_volumes}
use ocelot.VirtualServer.Scheduler.{Node, Scores}
use ocelot.VirtualServer.Store.Instances.{Instance}
use ocelot.VirtualServer.Store.Nodes

abbrev is_declared : InstanceState → Bool
is_declared InstanceState.declared = true
is_declared _ = false

abbrev is_scheduled : InstanceState → Bool
is_scheduled InstanceState.scheduled = true
is_scheduled _ = false

abbrev is_provisioning : InstanceState → Bool
is_provisioning InstanceState.provisioning = true
is_provisioning _ = false

abbrev is_failed : InstanceState → Bool
is_failed InstanceState.failed = true
is_failed _ = false

abbrev is_running : InstanceState → Bool
is_running InstanceState.running = true
is_running _ = false

abbrev is_degraded : InstanceState → Bool
is_degraded InstanceState.degraded = true
is_degraded _ = false

abbrev is_stopping : InstanceState → Bool
is_stopping InstanceState.stopping = true
is_stopping _ = false

unfoldable pub for_instances :
    (String → Instance → Store → Store) → List (String × Instance) → Store → Store
for_instances f [] s = s
for_instances f ((id, i) ∷ is) s = for_instances f is (f id i s)

-- A pass over the instances that are in a state when they are listed.
unfoldable pub pass : (InstanceState → Bool) → (String → Instance → Store → Store) → Store → Store
unfolding for_instances
pass p f s = for_instances f (select (λ (id, i). p i.state) s.instances) s

-- `listed` is what the scheduler is told of the nodes, given their states after the expiry.
unfoldable pub reconcile :
    Scores
    → (List ℕ → String)
    → (ℕ → ℕ → String)
    → (ℕ → ℕ → String)
    → (Nodes.Table → List Node)
    → Outside
    → ℕ
    → ℕ
    → Nodes.Table × Store
    → Nodes.Table × Store
unfolding pass reconcile_node_heartbeats reconcile_volumes reconcile_desired_count schedule_instance
    provision_instance start_instance inspect_instance handle_degraded_instance stop_instance
    handle_failed_instance
reconcile scores text fresh path listed out ttl now (nodes, s) =
    let alive = reconcile_node_heartbeats ttl now nodes in
    let a = reconcile_desired_count fresh path now out.services (reconcile_volumes out now s) in
    let b =
      pass is_declared (λ id i t. (schedule_instance scores text out (listed alive) now id i t).0)
        a in
    let c = pass is_scheduled (λ id i t. (provision_instance out now id i t).0) b in
    let d = pass is_provisioning (λ id i t. (start_instance out now id i t).0) c in
    let e = pass is_failed (handle_failed_instance out now) d in
    let f = pass is_running (inspect_instance out now) e in
    let g = pass is_degraded (handle_degraded_instance out now) f in
    (alive, pass is_stopping (stop_instance out now) g)
