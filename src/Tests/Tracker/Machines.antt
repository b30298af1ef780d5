-- ===== src/Tests/Tracker/Machines.antt =====
-- The circuit breaker, the state machines of artifacts and copies, the whitelist and the keys.
use ocelot.Prelude.{ℕ, ◌+◌, ◌≤◌, ◌≡◌, refl, List, [], ◌∷◌, arith, string_eq}
use ocelot.Tracker.CircuitBreaker.{
  CircuitBreaker, run, execute, asks, ends, failure, success, closed, open_state,
}
use ocelot.Tracker.CircuitBreaker.Counts.{IsValid, run-IsValid}
use ocelot.Tracker.CircuitBreaker.Recovery.{opens_after, fail_each}
use ocelot.Tracker.Replica.{NodeReplica, seeding, standard, ReplicaKey, NodeReplicaMap, key_eq}
use ocelot.Tracker.VerifyState.{
  VerifyState, transition, valid_transition, max_verify_retries, Lives, begins, moves,
  Lives-bounded, is_terminal, used_up,
}
use ocelot.Tracker.Whitelist.{is_allowed}
use ocelot.Tracker.Whitelist.Trie.{trie_allows, build_trie_from_slice, trie_allows-build}

abbrev breaker : CircuitBreaker
breaker = record {
  config = record { name = "db"; max_failures = 2; reset_timeout = 100; half_open_max = 2 };
  state = closed;
  failures = 0;
  last_fail_time = 0;
  half_open_count = 0;
}

breaker-IsValid : IsValid breaker
breaker-IsValid = ground arith

run-IsValid_example :
    IsValid
      (run (asks 1 ∷ ends 2 failure ∷ ends 3 failure ∷ asks 200 ∷ ends 201 success ∷ []) breaker)
run-IsValid_example =
    run-IsValid (asks 1 ∷ ends 2 failure ∷ ends 3 failure ∷ asks 200 ∷ ends 201 success ∷ [])
      breaker breaker-IsValid

abbrev tripped : CircuitBreaker
tripped = record breaker { state = open_state; failures = 2; last_fail_time = 50 }

tripped-IsValid : IsValid tripped
tripped-IsValid = ground arith

opens_after_example :
    ((fail_each ((3, 5) ∷ []) breaker).state ≡ closed)
    × (0 + 2 ≡ 2
        → ((execute 7 9 failure (fail_each ((3, 5) ∷ []) breaker)).0.state ≡ open_state)
          × ((execute 7 9 failure (fail_each ((3, 5) ∷ []) breaker)).0.last_fail_time ≡ 9))
opens_after_example = opens_after ((3, 5) ∷ []) breaker 7 9 breaker-IsValid refl (omega arith)

corrupted : {n : ℕ} → Lives VerifyState.downloading n → Lives VerifyState.deleting n
unfolding transition valid_transition is_terminal
corrupted l =
    moves VerifyState.deleting
      (moves VerifyState.corrupt
        (moves VerifyState.verifying (moves VerifyState.complete l (ground arith)) (ground arith))
        (ground arith))
      (ground arith)

again : {n : ℕ} → Lives VerifyState.retrying n → Lives VerifyState.downloading n
unfolding transition valid_transition is_terminal
again l = moves VerifyState.downloading l (ground arith)

-- Three cycles of corruption, and a fourth download that is corrupt.
fourth_corruption : Lives VerifyState.deleting 3
unfolding transition valid_transition is_terminal
fourth_corruption =
    let one = moves VerifyState.retrying (corrupted begins) (ground arith) in
    let two = moves VerifyState.retrying (corrupted (again one)) (ground arith) in
    let three = moves VerifyState.retrying (corrupted (again two)) (ground arith) in
    corrupted (again three)

Lives-bounded_example :
    (3 ≤ max_verify_retries)
    × (3 ≡ max_verify_retries
        → VerifyState.deleting ≡ VerifyState.deleting
        → (to : VerifyState) → transition VerifyState.deleting to 3 ≡ used_up to)
Lives-bounded_example = Lives-bounded fourth_corruption

abbrev seeder : NodeReplica
seeder = record {
  node_id = 1;
  info_hash = "h";
  class = standard;
  state = seeding;
  retry_count = 0;
  last_transition = 3;
  requested_at = 1;
  verified_at = 2;
}

abbrev key : ReplicaKey
key = record { key_node = 1; key_hash = "h" }

abbrev copies : NodeReplicaMap
copies = (key, seeder) ∷ []

abbrev peer_id : List ℕ
peer_id =
    45 ∷ 81 ∷ 66 ∷ 52 ∷ 49 ∷ 50 ∷ 48 ∷ 45 ∷ 1 ∷ 2 ∷ 3 ∷ 4 ∷ 5 ∷ 6 ∷ 7 ∷ 8 ∷ 9 ∷ 10 ∷ 11 ∷ 12 ∷ []

abbrev user : ℕ
user = 70_000

trie_allows-build_example :
    trie_allows (build_trie_from_slice ((45 ∷ 81 ∷ []) ∷ (45 ∷ 85 ∷ []) ∷ [])) peer_id
    ≡ is_allowed ((45 ∷ 81 ∷ []) ∷ (45 ∷ 85 ∷ []) ∷ []) peer_id
trie_allows-build_example = trie_allows-build ((45 ∷ 81 ∷ []) ∷ (45 ∷ 85 ∷ []) ∷ []) peer_id
