-- ===== src/VirtualServer/Store/Operations.antt =====
-- virtualserver/store/operation_store.go: asynchronous operations and their events.
-- `between` is what other goroutines do to the table between a call's read and its write lock.
pub mod Races
use ocelot.Prelude.{
  ℕ, ◌≡◌, Bool, true, false, Option, none, some, String, if◌then◌else◌, string_eq, is_some, List,
  [], ◌∷◌, ◌++◌, ◌||◌,
}
use ocelot.Prelude.Map.{Map, lookup, insert}
use ocelot.VirtualServer.Domain.Operation.{
  OperationState, OperationError, validate_operation_transition,
}

pub record Operation : Type 0 where
  pub instance_id : String
  pub op_type : String
  pub state : OperationState
  pub adapter : String
  pub created_at : ℕ
  pub updated_at : ℕ
  pub completed_at : Option ℕ

abbrev pub Table : Type 0
Table = Map String Operation

pub data StoreError : Type 0 where
  not_found insert_failed : StoreError
  rejected : OperationError → StoreError

-- The id is a new UUID.
unfoldable pub create_operation :
    String → String → String → String → ℕ → Table → Table × Option StoreError
create_operation id instance op_type adapter now t =
    if is_some (lookup id t) then (t, some insert_failed) else (
      insert id
          (record {
            instance_id = instance;
            op_type = op_type;
            state = OperationState.pending;
            adapter = adapter;
            created_at = now;
            updated_at = now;
            completed_at = none;
          })
          t,
      none,
    )

unfoldable pub is_completed : OperationState → Bool
is_completed OperationState.succeeded = true
is_completed OperationState.failed = true
is_completed OperationState.cancelled = true
is_completed _ = false

-- `UPDATE … SET state=?, updated_at=?, completed_at=? WHERE id=?`: the row is not tested again.
unfoldable pub overwrite : String → OperationState → ℕ → Table → Table
unfolding is_completed
overwrite id to now t = elim (lookup id t) [
  | none ↦ t
  | some o ↦
      insert id
        (record o {
          state = to;
          updated_at = now;
          completed_at = if is_completed to then some now else none;
        })
        t
]

unfoldable pub update_operation_state :
    String → OperationState → ℕ → (Table → Table) → Table → Table × Option StoreError
unfolding overwrite
update_operation_state id to now between t = elim (lookup id t) [
  | none ↦ (between t, some not_found)
  | some o ↦ elim (validate_operation_transition o.state to) [
    | some e ↦ (between t, some (rejected e))
    | none ↦ (overwrite id to now (between t), none)
  ]
]
