-- ===== src/Tests/Stores/Lifecycles.antt =====
-- virtualserver/store: instances, operations and nodes, one of each, with two goroutines.
use ocelot.Prelude.{◌≡◌, refl, ◌≢◌, none, some, [], ◌∷◌, arith, string_eq}
use ocelot.Prelude.Int.{pos}
use ocelot.Prelude.Map.{lookup}
use ocelot.VirtualServer.Domain.Instance.{InstanceState}
use ocelot.VirtualServer.Domain.Node.{NodeState, validate_node_transition, allowed_node}
use ocelot.VirtualServer.Domain.Operation.{OperationState}
use ocelot.VirtualServer.Store.Instances
use ocelot.VirtualServer.Store.Operations
use ocelot.VirtualServer.Store.Operations.Races as OperationRaces
use ocelot.VirtualServer.Store.Nodes
use ocelot.VirtualServer.Store.Nodes.Heartbeats

abbrev instance_in : InstanceState → Instances.Instance
instance_in s = record {
  service_id = 1;
  node_id = "";
  vs_path = "vs://a/b";
  state = s;
  retry_count = 0;
  updated_at = 1;
}

abbrev instances_in : InstanceState → Instances.Table
instances_in s = ("i", instance_in s) ∷ []

abbrev operation : Operations.Operation
operation = record {
  instance_id = "i";
  op_type = "start";
  state = OperationState.running;
  adapter = "process";
  created_at = 1;
  updated_at = 1;
  completed_at = none;
}

abbrev operations : Operations.Table
operations = ("o", operation) ∷ []

operations-IsStamped : OperationRaces.IsStamped operations
unfolding lookup Operations.is_completed
operations-IsStamped id o e = ground (arith, e)

abbrev machine : Nodes.Node
machine = record {
  name = "n";
  state = NodeState.ready;
  avail_ram_mib = pos 10;
  avail_cpu_threads = pos 2;
  last_heartbeat = none;
  updated_at = 1;
}

abbrev machines : Nodes.Table
machines = ("n", machine) ∷ []

heartbeat_undoes_quarantine_example :
    (Heartbeats.state_of "n"
        (Nodes.update_node_state "n" NodeState.quarantined 2 (λ w. w) machines).0
      ≡ some NodeState.quarantined)
    × (Heartbeats.state_of "n"
          (Nodes.heartbeat "n"
            (pos 9)
            (pos 2)
            3
            (λ u. (Nodes.update_node_state "n" NodeState.quarantined 2 (λ w. w) u).0)
            machines).0
        ≡ some (Nodes.heartbeat_state NodeState.ready))
    × (Nodes.heartbeat_state NodeState.ready ≢ NodeState.quarantined)
unfolding lookup validate_node_transition allowed_node
heartbeat_undoes_quarantine_example =
    Heartbeats.heartbeat_undoes_quarantine "n" (pos 9) (pos 2) 2 3 machine machines refl refl
