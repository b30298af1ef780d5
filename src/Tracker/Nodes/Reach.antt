-- ===== src/Tracker/Nodes/Reach.antt =====
-- A node's state against the number of heartbeats that it has missed.
use mathlib.Core.Path.{subst}
use ocelot.Prelude.{
  ℕ, suc, ◌<◌, ◌≡◌, refl, List, [], ◌∷◌, if◌then◌else◌, ltb, ◌==◌, nat_eq, arith, Bool-cases, inl,
  inr,
}
use ocelot.Tracker.Nodes.{
  NodeIdentity, ReachState, reachable, flapping, unreachable, heartbeat, miss, mark_stale_node,
}

-- What happens to one node: a heartbeat, or a sweep with the threshold of its time.
pub data Happening : Type 0 where
  beats : List ℕ → ℕ → ℕ → Happening
  sweeps : ℕ → ℕ → Happening

pub happen : Happening → NodeIdentity → NodeIdentity
happen (beats ip asn now) n = heartbeat ip asn now n
happen (sweeps threshold now) n = (mark_stale_node threshold now n).0

pub run : List Happening → NodeIdentity → NodeIdentity
run [] n = n
run (h ∷ hs) n = run hs (happen h n)

-- The sweeps in a row that found the last heartbeat too old, from that heartbeat on.
unfoldable pub misses : List Happening → ℕ → ℕ → ℕ
misses [] seen k = k
misses (beats ip asn now ∷ hs) seen k = misses hs now 0
misses (sweeps threshold now ∷ hs) seen k = misses hs seen (if ltb seen threshold then suc k else k)

abbrev pub reach_of : ℕ → ReachState
reach_of k = if k == 0 then reachable else if ltb k 3 then flapping else unreachable

record Agrees (k : ℕ) (n : NodeIdentity) : Type 0 where
  state : n.reach_state ≡ reach_of k
  counted : k < 3 → n.flap_count ≡ k

miss-Agrees :
    (s : ReachState) (now k : ℕ) (n : NodeIdentity)
    → s ≡ n.reach_state
    → Agrees k n
    → Agrees (suc k) (miss s now n).0
unfolding miss
miss-Agrees reachable now k n e a = ground arith
miss-Agrees flapping now k n e a = ground arith
miss-Agrees unreachable now k n e a = ground arith

last_seen-miss :
    (s : ReachState) (now : ℕ) (n : NodeIdentity) → (miss s now n).0.last_seen ≡ n.last_seen
unfolding miss
last_seen-miss s now n = ground arith

run-Agrees :
    (hs : List Happening) (n : NodeIdentity) (k : ℕ)
    → Agrees k n
    → Agrees (misses hs n.last_seen k) (run hs n)
unfolding run misses happen heartbeat mark_stale_node
run-Agrees [] n k a = a
run-Agrees (beats ip asn now ∷ hs) n k a =
    run-Agrees hs (heartbeat ip asn now n) 0 (record { state = refl; counted = λ _. refl })
run-Agrees (sweeps threshold now ∷ hs) n k a = elim (Bool-cases (ltb n.last_seen threshold)) [
  | inr fresh ↦ rw (fresh, run, happen, mark_stale_node) (run-Agrees hs n k a)
  | inl stale ↦
      let m = (miss n.reach_state now n).0 in
      rw (stale, run, happen, mark_stale_node)
        (subst (λ t. Agrees (misses hs t (suc k)) (run hs m)) (last_seen-miss n.reach_state now n)
          (run-Agrees hs m (suc k) (miss-Agrees n.reach_state now k n refl a)))
]

-- After any heartbeats and sweeps in any order, a node that began reachable is reachable when no sweep
-- since its last heartbeat found that too old, unreachable when three or more did, and flapping in
-- between, with their number as its count. So a node is still flapping after two such sweeps.
pub run-reach_of :
    (hs : List Happening) (n : NodeIdentity)
    → n.reach_state ≡ reachable
    → n.flap_count ≡ 0
    → let k = misses hs n.last_seen 0 in
      ((run hs n).reach_state ≡ reach_of k) × (k < 3 → (run hs n).flap_count ≡ k)
run-reach_of hs n fresh none_counted =
    let a = run-Agrees hs n 0 (record { state = fresh; counted = λ _. none_counted }) in
    (a.state, a.counted)
