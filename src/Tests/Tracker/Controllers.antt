-- ===== src/Tests/Tracker/Controllers.antt =====
-- The admission policy, the nodes and the controller of the copies.
use ocelot.Prelude.{
  ℕ, suc, ◌+◌, ◌≡◌, ◌<◌, refl, true, false, none, List, [], ◌∷◌, arith, any, string_eq, nat_eq,
  list_eq,
}
use ocelot.Prelude.Int.{i64, ◌+ℤ◌, pos, ◌<ℤ◌}
use ocelot.Prelude.Map.{lookup}
use ocelot.Prelude.Results.{ok}
use ocelot.Tracker.Admission.{is_admitted}
use ocelot.Tracker.Admission.Access
use ocelot.Tracker.Controller.{Board, ControllerAction, signal}
use ocelot.Tracker.Controller.Signals.{SignalsAll, signal-SignalsAll}
use ocelot.Tracker.Controller.Ensure.{
  EnsureRequest, ensure_artifact, ensure_artifact_again, in_progress, join_queued,
}
use ocelot.Tracker.Nodes.{
  NodeIdentity, NodeRegistry, register, unregister, heartbeat_of, classify_peer, managed, unmanaged,
  edge, reachable, flapping,
}
use ocelot.Tracker.Nodes.Addresses.{heartbeat_not_indexed}
use ocelot.Tracker.Nodes.Reach.{run, sweeps, misses, run-reach_of}
use ocelot.Tracker.Replica.{standard, requested}
use ocelot.Tracker.Replication.{Popularity, Counter, evaluate}
use ocelot.Tracker.Replication.Hysteresis

is_admitted-run_example :
    is_admitted (7 ∷ []) "b" (
      Access.run
        (((7 ∷ []), Access.restricts ("a" ∷ "b" ∷ []))
          ∷ ((8 ∷ []), Access.opens)
          ∷ ((7 ∷ []), Access.removes "b")
          ∷ [])
        [])
    ≡ false
unfolding Access.change Access.changes_of
is_admitted-run_example = Access.is_admitted-run (7 ∷ []) "b" (
    ((7 ∷ []), Access.restricts ("a" ∷ "b" ∷ []))
    ∷ ((8 ∷ []), Access.opens)
    ∷ ((7 ∷ []), Access.removes "b")
    ∷ [])

abbrev node : NodeIdentity
node = record {
  node_id = 1;
  hostname = "edge-1";
  last_ip = 10 ∷ 0 ∷ 0 ∷ 1 ∷ [];
  tier = edge;
  asn = 3320;
  wan = record { limit_bytes_per_day = pos 0; used_bytes_this_day = pos 0; last_reset = none };
  last_seen = 100;
  reach_state = reachable;
  flap_count = 0;
  last_flap = none;
}

run-reach_of_example :
    ((run (sweeps 110 120 ∷ sweeps 120 130 ∷ []) node).reach_state ≡ flapping)
    × (2 < 3 → (run (sweeps 110 120 ∷ sweeps 120 130 ∷ []) node).flap_count ≡ 2)
unfolding misses
run-reach_of_example = run-reach_of (sweeps 110 120 ∷ sweeps 120 130 ∷ []) node refl refl

abbrev no_nodes : NodeRegistry
no_nodes = record { nodes = []; by_ip = [] }

heartbeat_not_indexed_example :
    (classify_peer (9 ∷ []) (heartbeat_of 1 (9 ∷ []) 3320 200 (register node no_nodes)) ≡ unmanaged)
    × (classify_peer
          (10 ∷ 0 ∷ 0 ∷ 1 ∷ [])
          (unregister 1 (heartbeat_of 1 (9 ∷ []) 3320 200 (register node no_nodes)))
        ≡ managed)
unfolding lookup
heartbeat_not_indexed_example =
    heartbeat_not_indexed node (9 ∷ []) 3320 200 no_nodes (λ h. cc h) (λ h. cc h) refl

-- The demand itself for the smoothed one, and no logarithm.
abbrev as_is : Popularity
as_is = record { Smoothed = ℕ; smooth = λ demand s. demand; scaled = λ s. pos s }

abbrev counter : Counter as_is
counter = record {
  smoothed = 5;
  current_desired = pos 6;
  below_count = 0;
  scale_down_threshold = 2;
}

run-IsDip_example :
    ((Hysteresis.run as_is ((0, pos 1, pos 8) ∷ []) counter).current_desired ≡ pos 6)
    × ((Hysteresis.run as_is ((0, pos 1, pos 8) ∷ []) counter).below_count ≡ 1)
    × (pos 1 <ℤ pos 6
        → suc (0 + 1) ≡ counter.scale_down_threshold
        → (evaluate as_is 0
            (pos 1)
            (pos 8)
            (Hysteresis.run as_is ((0, pos 1, pos 8) ∷ []) counter)).current_desired
          ≡ pos 1)
unfolding Hysteresis.run Hysteresis.IsDip evaluate i64 ◌+ℤ◌
run-IsDip_example =
    Hysteresis.run-IsDip as_is ((0, pos 1, pos 8) ∷ []) 0 (pos 1) (pos 8) counter (omega arith, tt)
      (omega arith)

abbrev board : Board
board = record { replicas = []; directives = [] }

signal-SignalsAll_example :
    (js : List ControllerAction) × SignalsAll 5 "h" standard
      (1 ∷ 2 ∷ 3 ∷ [])
      2
      board
      (signal 5 "h" standard (1 ∷ 2 ∷ 3 ∷ []) 2 board)
      js
signal-SignalsAll_example = signal-SignalsAll 5 "h" standard (1 ∷ 2 ∷ 3 ∷ []) 2 board

abbrev request : EnsureRequest
request = record { info_hash = "h"; node_id = 1; class = "standard" }

ensure_artifact_again_example :
    ensure_artifact
      ("h" ∷ [])
      ((1, node) ∷ [])
      9
      (record request { class = "pinned" })
      (ensure_artifact ("h" ∷ []) ((1, node) ∷ []) 5 request board).0
    ≡ (
      (ensure_artifact ("h" ∷ []) ((1, node) ∷ []) 5 request board).0,
      ok (record { state = requested; queued = false; message = in_progress }),
    )
unfolding ensure_artifact any lookup
ensure_artifact_again_example =
    ensure_artifact_again ("h" ∷ []) ((1, node) ∷ []) 5 9 request "pinned" board
      (record { state = requested; queued = true; message = join_queued }) refl refl
