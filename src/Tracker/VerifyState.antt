-- ===== src/Tracker/VerifyState.antt =====
-- tracker/verify_state.go: the verification of an artifact.
use ocelot.Prelude.{
  ℕ, suc, ◌≤◌, ◌≡◌, ◌≢◌, ◌⊎◌, Bool, true, false, ◌&&◌, not, Option, none, some, arith,
  if◌then◌else◌, leb,
}
use ocelot.Prelude.Reach.{Reaches, Reaches-keeps}

-- `VerifyState` is a uint8: `other` stands for the values that are no constant of the file.
pub data VerifyState : Type 0 where
  downloading complete verifying verified corrupt deleting retrying failed : VerifyState
  other : ℕ → VerifyState

pub data VerifyError : Type 0 where
  max_retries_exceeded invalid_transition terminal_state : VerifyError

abbrev pub max_verify_retries : ℕ
max_verify_retries = 3

unfoldable pub is_terminal : VerifyState → Bool
is_terminal verified = true
is_terminal failed = true
is_terminal _ = false

unfoldable pub valid_transition : VerifyState → VerifyState → Bool
valid_transition downloading complete = true
valid_transition complete verifying = true
valid_transition verifying verified = true
valid_transition verifying corrupt = true
valid_transition corrupt deleting = true
valid_transition deleting retrying = true
valid_transition deleting failed = true
valid_transition retrying downloading = true
valid_transition _ _ = false

abbrev is_deleting : VerifyState → Bool
is_deleting deleting = true
is_deleting _ = false

-- A negative retry count acts as 0: both are below the maximum.
unfoldable pub transition : VerifyState → VerifyState → ℕ → VerifyState × Option VerifyError
unfolding is_terminal valid_transition
transition current to retries =
    if is_terminal current
    then (current, some terminal_state)
    else (if not (valid_transition current to)
        then (current, some invalid_transition)
        else (if is_deleting current && leb max_verify_retries retries
            then (failed, some max_retries_exceeded)
            else (to, none)))

-- Whatever is asked for, with whatever retry count: an artifact stays where it is, with an error, or
-- moves along the table; without an error it moves to the state asked for; and once the retries are
-- used up, nothing but `failed` follows `deleting`.
pub transition-IsLegal :
    (current to : VerifyState) (retries : ℕ)
    → let (after, e) = transition current to retries in
      (valid_transition current after ≡ true ⊎ ((after ≡ current) × (e ≢ none)))
      × (e ≡ none → after ≡ to)
      × (current ≡ deleting → max_verify_retries ≤ retries → (after ≡ failed) ⊎ (after ≡ deleting))
unfolding transition valid_transition is_terminal
transition-IsLegal current to retries = ground arith

-- The transitions that do not lead into `verifying`.
unfoldable pub unverified_transition : VerifyState → VerifyState → Bool
unverified_transition s verifying = false
unverified_transition s t = valid_transition s t

abbrev IsUnverified : VerifyState → Type 0
IsUnverified verifying = ⊥
IsUnverified verified = ⊥
IsUnverified (other n) = ⊥
IsUnverified _ = Unit

unverified_transition-IsUnverified :
    (s t : VerifyState) → unverified_transition s t ≡ true → IsUnverified s → IsUnverified t
unfolding unverified_transition valid_transition
unverified_transition-IsUnverified s t e h = ground arith

-- No artifact that is being downloaded becomes verified without having been verifying.
pub verified_needs_verifying :
    (s : VerifyState) → Reaches unverified_transition downloading s → s ≢ verified
verified_needs_verifying s r e = ground (
  arith,
  Reaches-keeps unverified_transition IsUnverified unverified_transition-IsUnverified r tt,
)

-- One more cycle of corruption is complete when the artifact goes to wait for its next download.
abbrev count_cycle : VerifyState → ℕ → ℕ
count_cycle retrying n = suc n
count_cycle _ n = n

-- The lives of an artifact: any sequence of requests, with the number of completed cycles as the
-- retry count. A request that is refused changes nothing.
pub data Lives : VerifyState → ℕ → Type 0 where
  begins : Lives downloading 0
  stays : {s : VerifyState} {n : ℕ} → (to : VerifyState) → Lives s n → Lives s n
  moves :
      {s : VerifyState} {n : ℕ} (to : VerifyState)
      → Lives s n
      → (transition s to n).0 ≢ s
      → Lives (transition s to n).0 (count_cycle (transition s to n).0 n)

counted :
    (s to : VerifyState) (n : ℕ)
    → n ≤ max_verify_retries
    → (transition s to n).0 ≢ s
    → count_cycle (transition s to n).0 n ≤ max_verify_retries
unfolding transition valid_transition is_terminal
counted s to n le ne = ground arith

at_most_three : {s : VerifyState} {n : ℕ} → Lives s n → n ≤ max_verify_retries
at_most_three begins = omega arith
at_most_three (stays to l) = at_most_three l
at_most_three (moves {s} {n} to l ne) = counted s to n (at_most_three l) ne

-- The answers while an artifact is being deleted and has no retry left.
abbrev pub used_up : VerifyState → VerifyState × Option VerifyError
used_up retrying = (failed, some max_retries_exceeded)
used_up failed = (failed, some max_retries_exceeded)
used_up _ = (deleting, some invalid_transition)

transition-used_up : (to : VerifyState) → transition deleting to max_verify_retries ≡ used_up to
unfolding transition valid_transition is_terminal
transition-used_up to = ground arith

-- However the requests are chosen, an artifact goes to wait for another download at most three times,
-- so that after the first download it has at most three more; and when it is being deleted after
-- these, a request to retry or to fail makes it failed, with the error that the retries are
-- exceeded, and every other request is invalid and leaves it there.
pub Lives-bounded :
    {s : VerifyState} {n : ℕ}
    → Lives s n
    → (n ≤ max_verify_retries)
      × (n ≡ max_verify_retries
          → s ≡ deleting
          → (to : VerifyState) → transition s to n ≡ used_up to)
Lives-bounded l = (at_most_three l, λ three waiting to. rw (three, waiting) (transition-used_up to))
