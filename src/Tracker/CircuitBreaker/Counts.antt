-- ===== src/Tracker/CircuitBreaker/Counts.antt =====
-- The counters of the circuit breaker under any interleaving of calls.
use ocelot.Prelude.{◌^◌, ◌≤◌, ◌<◌, ◌≡◌, arith, List, [], ◌∷◌}
use ocelot.Tracker.CircuitBreaker.{
  Config, CircuitBreaker, closed, new_circuit_breaker, can_execute, on_success, on_failure,
  record_result, reset, Event, asks, ends, resets, step, run, success, failure,
}

-- Between two critical sections.
pub record IsValid (cb : CircuitBreaker) : Type 0 where
  pub some_failures : 0 < cb.max_failures
  pub failures_fit : cb.max_failures < 2 ^ 32
  pub trials_fit : cb.half_open_max < 2 ^ 32
  pub closed_below : cb.state ≡ closed → cb.failures < cb.max_failures
  pub trials_capped : cb.half_open_count ≤ cb.half_open_max

pub new_circuit_breaker-IsValid :
    (c : Config)
    → c.max_failures < 2 ^ 32
    → c.half_open_max < 2 ^ 32
    → IsValid (new_circuit_breaker c)
unfolding new_circuit_breaker
new_circuit_breaker-IsValid c h k = ground arith

step-IsValid : (e : Event) (cb : CircuitBreaker) → IsValid cb → IsValid (step e cb)
unfolding step can_execute record_result on_success on_failure reset
step-IsValid (asks now) cb v = ground arith
step-IsValid (ends now success) cb v = ground arith
step-IsValid (ends now failure) cb v = ground arith
step-IsValid resets cb v = ground arith

-- Under any interleaving of requests, results and resets the breaker is never closed with as many
-- failures counted as should have opened it, the trials counted in the half-open state stay within
-- their maximum, and neither counter wraps around while it is compared.
pub run-IsValid : (es : List Event) (cb : CircuitBreaker) → IsValid cb → IsValid (run es cb)
unfolding run
run-IsValid [] cb v = v
run-IsValid (e ∷ es) cb v = run-IsValid es (step e cb) (step-IsValid e cb v)
