-- ===== src/VirtualServer/Store/Instances.antt =====
-- virtualserver/store/instance_store.go: service instances.
-- A call that reads before it takes the write lock has a parameter `between`, what the calls of
-- other goroutines do to the table in the meantime.
pub mod Races
use ocelot.Prelude.{
  ℕ, ◌+◌, Bool, true, false, Option, none, some, String, if◌then◌else◌, string_eq, is_some, ite,
}
use ocelot.Prelude.Map.{Map, lookup, insert}
use ocelot.VirtualServer.Domain.Instance.{
  InstanceState, InstanceError, InstanceState-discrete, validate_instance_transition,
}

pub record Instance : Type 0 where
  pub service_id : ℕ
  pub node_id : String
  pub vs_path : String
  pub state : InstanceState
  pub retry_count : ℕ
  pub updated_at : ℕ

abbrev pub Table : Type 0
Table = Map String Instance

pub data StoreError : Type 0 where
  not_found insert_failed concurrent_change : StoreError
  rejected : InstanceError → StoreError

-- The id is a new UUID.
unfoldable pub create_instance : String → ℕ → String → ℕ → Table → Table × Option StoreError
create_instance id service path now t = if is_some (lookup id t) then (t, some insert_failed) else (
  insert id
      (record {
        service_id = service;
        node_id = "";
        vs_path = path;
        state = InstanceState.declared;
        retry_count = 0;
        updated_at = now;
      })
      t,
  none,
)

-- `UPDATE … WHERE id=? AND state=?`, and the test of the number of rows.
unfoldable pub commit :
    String → InstanceState → (Instance → Instance) → Table → Table × Option StoreError
commit id from write t = elim (lookup id t) [
  | none ↦ (t, some concurrent_change)
  | some i ↦
      ite (InstanceState-discrete i.state from) (insert id (write i) t, none)
        (t, some concurrent_change)
]

-- The read, the validation, and the guarded write of `UpdateInstanceState` and `AssignNode`.
unfoldable pub transition :
    String
    → InstanceState
    → (Instance → Instance)
    → (Table → Table)
    → Table
    → Table × Option StoreError
transition id to write between t = elim (lookup id t) [
  | none ↦ (between t, some not_found)
  | some i ↦ elim (validate_instance_transition i.state to) [
    | some e ↦ (between t, some (rejected e))
    | none ↦ commit id i.state write (between t)
  ]
]

unfoldable pub update_instance_state :
    String → InstanceState → ℕ → (Table → Table) → Table → Table × Option StoreError
unfolding transition
update_instance_state id to now between t =
    transition id to (λ i. record i { state = to; updated_at = now }) between t

unfoldable pub assign_node :
    String → String → ℕ → (Table → Table) → Table → Table × Option StoreError
unfolding transition
assign_node id node now between t =
    transition id InstanceState.scheduled
      (λ i. record i { node_id = node; state = InstanceState.scheduled; updated_at = now }) between
      t

unfoldable pub increment_retry_count : String → ℕ → Table → Table
increment_retry_count id now t = elim (lookup id t) [
  | none ↦ t
  | some i ↦
      insert id
        (record i {
          retry_count = i.retry_count + 1;
          state = InstanceState.declared;
          updated_at = now;
        })
        t
]

-- The handle itself is left out; the write stamps the row.
unfoldable pub update_runtime_handle : String → ℕ → Table → Table
update_runtime_handle id now t = elim (lookup id t) [
  | none ↦ t
  | some i ↦ insert id (record i { updated_at = now }) t
]
