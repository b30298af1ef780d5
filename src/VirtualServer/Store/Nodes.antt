-- ===== src/VirtualServer/Store/Nodes.antt =====
-- virtualserver/store/node_store.go: the states of the nodes, and their heartbeats.
-- `between` is what other goroutines do to the table between a call's read and its write lock.
pub mod Heartbeats
use ocelot.Prelude.{
  ℕ, ◌≡◌, Bool, true, false, Option, none, some, String, if◌then◌else◌, string_eq, is_some, ite,
}
use ocelot.Prelude.Int.{ℤ}
use ocelot.Prelude.Map.{Map, lookup, insert}
use ocelot.VirtualServer.Domain.Node.{
  NodeState, NodeError, NodeState-discrete, validate_node_transition, is_protected_node_state,
}

pub record Node : Type 0 where
  pub name : String
  pub state : NodeState
  pub avail_ram_mib : ℤ
  pub avail_cpu_threads : ℤ
  pub last_heartbeat : Option ℕ
  pub updated_at : ℕ

abbrev pub Table : Type 0
Table = Map String Node

pub data StoreError : Type 0 where
  not_found concurrent_change : StoreError
  rejected : NodeError → StoreError

-- `UPDATE … WHERE id=? AND state=?`, and the test of the number of rows.
unfoldable pub commit : String → NodeState → NodeState → ℕ → Table → Table × Option StoreError
commit id from to now t = elim (lookup id t) [
  | none ↦ (t, some concurrent_change)
  | some n ↦
      ite (NodeState-discrete n.state from)
        (insert id (record n { state = to; updated_at = now }) t, none) (t, some concurrent_change)
]

unfoldable pub update_node_state :
    String → NodeState → ℕ → (Table → Table) → Table → Table × Option StoreError
unfolding commit
update_node_state id to now between t = elim (lookup id t) [
  | none ↦ (between t, some not_found)
  | some n ↦ elim (validate_node_transition n.state to) [
    | some e ↦ (between t, some (rejected e))
    | none ↦ commit id n.state to now (between t)
  ]
]

-- The state that a heartbeat writes, from the state that it has read.
unfoldable pub heartbeat_state : NodeState → NodeState
heartbeat_state s =
    if is_protected_node_state s
    then s
    else elim s [ NodeState.discovered ↦ NodeState.ready | other_state ↦ other_state ]

-- The write has no guard on the state.
unfoldable pub record_heartbeat : String → NodeState → ℤ → ℤ → ℕ → Table → Table
record_heartbeat id s ram cpu now t = elim (lookup id t) [
  | none ↦ t
  | some n ↦
      insert id
        (record n {
          last_heartbeat = some now;
          avail_ram_mib = ram;
          avail_cpu_threads = cpu;
          state = s;
          updated_at = now;
        })
        t
]

unfoldable pub heartbeat : String → ℤ → ℤ → ℕ → (Table → Table) → Table → Table × Option StoreError
unfolding record_heartbeat
heartbeat id ram cpu now between t = elim (lookup id t) [
  | none ↦ (between t, some not_found)
  | some n ↦ (record_heartbeat id (heartbeat_state n.state) ram cpu now (between t), none)
]
