-- ===== src/VirtualServer/Domain/Operation.antt =====
-- virtualserver/domain/operation.go: the lifecycle of an asynchronous adapter command.
use ocelot.Prelude.{Bool, true, false, Option, none, some, String, if◌then◌else◌}

-- `OperationState` is a string: `other` stands for the strings that are no constant of the file.
pub data OperationState : Type 0 where
  pending running succeeded failed cancelled : OperationState
  other : String → OperationState

pub data OperationError : Type 0 where
  unknown_source : OperationState → OperationError
  invalid_transition : OperationState → OperationState → OperationError

is_source : OperationState → Bool
is_source (other s) = false
is_source _ = true

unfoldable pub allowed_operation : OperationState → OperationState → Bool
allowed_operation pending running = true
allowed_operation pending cancelled = true
allowed_operation running succeeded = true
allowed_operation running failed = true
allowed_operation running cancelled = true
allowed_operation _ _ = false

unfoldable pub validate_operation_transition :
    OperationState → OperationState → Option OperationError
unfolding is_source
validate_operation_transition from to =
    if is_source from
    then (if allowed_operation from to then none else some (invalid_transition from to))
    else some (unknown_source from)
