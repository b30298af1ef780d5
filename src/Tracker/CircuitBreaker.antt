-- ===== src/Tracker/CircuitBreaker.antt =====
-- tracker/circuit_breaker.go. Times and durations are numbers of nanoseconds; the clock's reading is
-- an argument of each call, and does not run backwards. `uint32` counters wrap.
pub mod Counts
pub mod Recovery
use ocelot.Prelude.{
  ℕ, ◌+◌, ◌-◌, ◌%◌, ◌^◌, Bool, true, false, Option, none, some, String, if◌then◌else◌, leb, ltb,
  ◌==◌, nat_eq, List, [], ◌∷◌,
}

-- `CircuitState` is an int: `other` stands for the values that are no constant of the file.
pub data CircuitState : Type 0 where
  closed open_state half_open : CircuitState
  other : ℕ → CircuitState

pub record Config : Type 0 where
  pub name : String
  pub max_failures : ℕ  -- uint32
  pub reset_timeout : ℕ
  pub half_open_max : ℕ  -- uint32

pub record CircuitBreaker : Type 0 where
  pub config : Config
  pub open config use {max_failures, reset_timeout, half_open_max}
  pub state : CircuitState
  pub failures : ℕ  -- uint32
  pub last_fail_time : ℕ
  pub half_open_count : ℕ  -- uint32

abbrev or_default : ℕ → ℕ → ℕ
or_default n d = if n == 0 then d else n

abbrev pub u32 : ℕ → ℕ
u32 n = n % 2 ^ 32

unfoldable pub new_circuit_breaker : Config → CircuitBreaker
new_circuit_breaker c = record {
  config = record c {
    max_failures = or_default c.max_failures 5;
    reset_timeout = or_default c.reset_timeout 30_000_000_000;
    half_open_max = or_default c.half_open_max 3;
  };
  state = closed;
  failures = 0;
  last_fail_time = 0;
  half_open_count = 0;
}

allow_in : CircuitState → ℕ → CircuitBreaker → CircuitBreaker × Bool
allow_in closed now cb = (cb, true)
allow_in open_state now cb =
    if leb cb.reset_timeout (now - cb.last_fail_time)
    then (record cb { state = half_open; half_open_count = 0 }, true)
    else (cb, false)
allow_in half_open now cb =
    if ltb cb.half_open_count cb.half_open_max
    then (record cb { half_open_count = u32 (cb.half_open_count + 1) }, true)
    else (cb, false)
allow_in (other n) now cb = (cb, false)

unfoldable pub can_execute : ℕ → CircuitBreaker → CircuitBreaker × Bool
unfolding allow_in
can_execute now cb = allow_in cb.state now cb

succeed_in : CircuitState → CircuitBreaker → CircuitBreaker
succeed_in closed cb = record cb { failures = 0 }
succeed_in half_open cb =
    if leb cb.half_open_max cb.half_open_count
    then record cb { state = closed; failures = 0; half_open_count = 0 }
    else cb
succeed_in _ cb = cb

unfoldable pub on_success : CircuitBreaker → CircuitBreaker
unfolding succeed_in
on_success cb = succeed_in cb.state cb

fail_in : CircuitState → CircuitBreaker → CircuitBreaker
fail_in closed cb = if leb cb.max_failures cb.failures then record cb { state = open_state } else cb
fail_in half_open cb = record cb { state = open_state; half_open_count = 0 }
fail_in _ cb = cb

unfoldable pub on_failure : ℕ → CircuitBreaker → CircuitBreaker
unfolding fail_in
on_failure now cb =
    fail_in cb.state (record cb { failures = u32 (cb.failures + 1); last_fail_time = now })

-- The result of the guarded function: whether it returned an error.
pub data Outcome : Type 0 where
  success failure : Outcome

unfoldable pub record_result : ℕ → Outcome → CircuitBreaker → CircuitBreaker
record_result now success cb = on_success cb
record_result now failure cb = on_failure now cb

unfoldable pub reset : CircuitBreaker → CircuitBreaker
reset cb = record cb { state = closed; failures = 0; half_open_count = 0 }

-- `Execute` with no other call in between: the function runs at `now` and ends at `later` with the
-- outcome. The result is `none` for `ErrCircuitOpen`.
unfoldable pub execute : ℕ → ℕ → Outcome → CircuitBreaker → CircuitBreaker × Option Outcome
execute now later o cb =
    let (cb', allowed) = can_execute now cb in
    if allowed then (record_result later o cb', some o) else (cb', none)

-- Concurrent use: the critical sections of any number of calls, in any order.
pub data Event : Type 0 where
  asks : ℕ → Event
  ends : ℕ → Outcome → Event
  resets : Event

unfoldable pub step : Event → CircuitBreaker → CircuitBreaker
step (asks now) cb = (can_execute now cb).0
step (ends now o) cb = record_result now o cb
step resets cb = reset cb

unfoldable pub run : List Event → CircuitBreaker → CircuitBreaker
unfolding step
run [] cb = cb
run (e ∷ es) cb = run es (step e cb)
