-- ===== src/Tracker/CircuitBreaker/Recovery.antt =====
-- How the circuit breaker opens, and how it closes again.
use ocelot.Prelude.{
  ℕ, zero, suc, ◌+◌, ◌-◌, ◌≤◌, ◌<◌, ◌≡◌, refl, ◌∙◌, ◌⊎◌, inl, inr, none, some, List, [], ◌∷◌,
  length, arith,
}
use ocelot.Tracker.CircuitBreaker.{
  CircuitBreaker, closed, open_state, half_open, can_execute, on_success, on_failure, record_result,
  Outcome, success, failure, execute,
}
use ocelot.Tracker.CircuitBreaker.Counts.{IsValid}

-- While the breaker is open and the timeout has not passed since the last failure, a call is refused
-- and leaves the breaker as it was; from then on the next call is let through, on trial.
pub open_until_timeout :
    (cb : CircuitBreaker) (now later : ℕ) (o : Outcome)
    → cb.state ≡ open_state
    → ((now - cb.last_fail_time < cb.reset_timeout) × (execute now later o cb ≡ (cb, none)))
      ⊎ ((cb.reset_timeout ≤ now - cb.last_fail_time)
          × ((execute now later o cb).1 ≡ some o)
          × ((can_execute now cb).0.state ≡ half_open))
unfolding execute can_execute
open_until_timeout cb now later o h = ground arith

-- One call after another, each failing, with the moments at which it starts and ends.
unfoldable pub fail_each : List (ℕ × ℕ) → CircuitBreaker → CircuitBreaker
fail_each [] cb = cb
fail_each ((start, end) ∷ calls) cb = fail_each calls (execute start end failure cb).0

failing_step :
    (cb : CircuitBreaker) (start end : ℕ)
    → IsValid cb
    → cb.state ≡ closed
    → let u = (execute start end failure cb).0 in
      ((cb.failures + 1 < cb.max_failures)
        × (u.state ≡ closed)
        × (u.failures ≡ cb.failures + 1)
        × (u.max_failures ≡ cb.max_failures)
        × IsValid u)
      ⊎ ((cb.failures + 1 ≡ cb.max_failures) × (u.state ≡ open_state) × (u.last_fail_time ≡ end))
unfolding execute can_execute record_result on_failure
failing_step cb start end v h = ground arith

-- The breaker after some failures, fewer than it takes.
record IsUsed (n : ℕ) (cb u : CircuitBreaker) : Type 0 where
  closed_still : u.state ≡ closed
  counted : u.failures ≡ cb.failures + n
  same_maximum : u.max_failures ≡ cb.max_failures
  still_valid : IsValid u

fail_each-IsUsed :
    (calls : List (ℕ × ℕ)) (cb : CircuitBreaker)
    → IsValid cb
    → cb.state ≡ closed
    → cb.failures + length calls < cb.max_failures
    → IsUsed (length calls) cb (fail_each calls cb)
unfolding fail_each
fail_each-IsUsed [] cb v h lt = record {
  closed_still = h;
  counted = omega arith;
  same_maximum = refl;
  still_valid = v;
}
fail_each-IsUsed ((start, end) ∷ calls) cb v h lt = elim (failing_step cb start end v h) [
  | inr (last, _, _) ↦ absurd (omega (arith, last, lt))
  | inl (_, stays, one_more, same, valid) ↦
      let u = (execute start end failure cb).0 in
      let used = fail_each-IsUsed calls u valid stays (omega (arith, one_more, same, lt)) in
      record {
        closed_still = used.closed_still;
        counted = omega (arith, used.counted, one_more);
        same_maximum = used.same_maximum ∙ same;
        still_valid = used.still_valid;
      }
]

-- A valid closed breaker that has some failures counted stays closed through further failing calls, one
-- after another, each with its own start and end, while their number is below `max_failures`; the
-- next failing call, which reaches it, opens the breaker, as of the moment at which that call ends.
pub opens_after :
    (calls : List (ℕ × ℕ)) (cb : CircuitBreaker) (start end : ℕ)
    → IsValid cb
    → cb.state ≡ closed
    → cb.failures + length calls < cb.max_failures
    → let before = fail_each calls cb in
      let after = (execute start end failure before).0 in
      (before.state ≡ closed)
      × (cb.failures + suc (length calls) ≡ cb.max_failures
          → (after.state ≡ open_state) × (after.last_fail_time ≡ end))
opens_after calls cb start end v h lt =
    let used = fail_each-IsUsed calls cb v h lt in
    let before = fail_each calls cb in
    (
      used.closed_still,
      λ reached. elim (failing_step before start end used.still_valid used.closed_still) [
        | inl (fewer, _, _, _, _) ↦
            absurd (omega (arith, fewer, reached, used.counted, used.same_maximum))
        | inr (_, opened, as_of) ↦ (opened, as_of)
      ],
    )

-- One call after another, each succeeding, all at the given time.
unfoldable pub succeed_times : ℕ → ℕ → CircuitBreaker → CircuitBreaker
succeed_times zero now cb = cb
succeed_times (suc n) now cb = succeed_times n now (execute now now success cb).0

trial_step :
    (cb : CircuitBreaker) (now : ℕ)
    → IsValid cb
    → cb.state ≡ half_open
    → let u = (execute now now success cb).0 in
      ((cb.half_open_count + 1 < cb.half_open_max)
        × (u.state ≡ half_open)
        × (u.half_open_count ≡ cb.half_open_count + 1)
        × (u.half_open_max ≡ cb.half_open_max)
        × IsValid u)
      ⊎ ((cb.half_open_max ≤ cb.half_open_count + 1)
          × ((cb.half_open_count < cb.half_open_max) → (u.state ≡ closed) × (u.failures ≡ 0)))
unfolding execute can_execute record_result on_success
trial_step cb now v h = ground arith

stays_half_open :
    (n : ℕ) (cb : CircuitBreaker) (now : ℕ)
    → IsValid cb
    → cb.state ≡ half_open
    → cb.half_open_count + n < cb.half_open_max
    → (succeed_times n now cb).state ≡ half_open
unfolding succeed_times
stays_half_open zero cb now v h lt = h
stays_half_open (suc n) cb now v h lt =
    ground (arith, trial_step cb now v h, stays_half_open n (execute now now success cb).0 now)

reaches_closed :
    (n : ℕ) (cb : CircuitBreaker) (now : ℕ)
    → IsValid cb
    → cb.state ≡ half_open
    → cb.half_open_count + suc n ≡ cb.half_open_max
    → (succeed_times (suc n) now cb).state ≡ closed
unfolding succeed_times
reaches_closed zero cb now v h e = ground (arith, trial_step cb now v h)
reaches_closed (suc n) cb now v h e =
    ground (arith, trial_step cb now v h, reaches_closed n (execute now now success cb).0 now)

first_trial :
    (cb : CircuitBreaker) (now : ℕ)
    → IsValid cb
    → 0 < cb.half_open_max
    → cb.state ≡ open_state
    → cb.reset_timeout ≤ now - cb.last_fail_time
    → let u = (execute now now success cb).0 in
      (u.state ≡ half_open)
      × (u.half_open_count ≡ 0)
      × (u.half_open_max ≡ cb.half_open_max)
      × IsValid u
unfolding execute can_execute record_result on_success
first_trial cb now v p h le = ground arith

-- A breaker whose timeout has passed closes after one more successful call than `half_open_max`: the
-- call that ends the open state runs on trial and is not counted. Through the first `half_open_max`
-- of them it is still half-open.
pub closes_after :
    (n m : ℕ) (cb : CircuitBreaker) (now : ℕ)
    → IsValid cb
    → cb.half_open_max ≡ suc n
    → cb.state ≡ open_state
    → cb.reset_timeout ≤ now - cb.last_fail_time
    → m ≤ n
    → ((succeed_times (suc m) now cb).state ≡ half_open)
      × ((succeed_times (suc (suc n)) now cb).state ≡ closed)
unfolding succeed_times
closes_after n m cb now v e h le lm = ground (
  arith,
  first_trial cb now v,
  stays_half_open m (execute now now success cb).0 now,
  reaches_closed n (execute now now success cb).0 now,
)
