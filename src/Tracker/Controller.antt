-- ===== src/Tracker/Controller.antt =====
-- tracker/swarm_controller.go: the reconciliation of the copies of an artifact, and the request for a
-- copy on a node. The controller runs alone between the receivers of its directives. Scores are
-- floating-point: which of two nodes has the higher one is a parameter, and so is whether a network
-- has more than the threshold's fraction of the demand.
pub mod Signals
pub mod Ensure
use ocelot.Prelude.{
  ℕ, zero, suc, ◌+◌, ◌-◌, Bool, true, false, not, ◌&&◌, ◌||◌, Option, none, some, String, List, [],
  ◌∷◌, ◌++◌, length, any, if◌then◌else◌, ltb, leb, ◌==◌, nat_eq, string_eq, select, map,
}
use ocelot.Prelude.Int.{ℤ, pos, ◌-ℤ◌, pos_part, ltb_ℤ, leb_ℤ}
use ocelot.Prelude.Map.{Map, lookup, insert}
use ocelot.Tracker.Nodes.{
  NodeIdentity, NodeTier, edge, regional, core, directable, is_directable, directable_nodes,
  is_near_cap, grace_ttl, is_unreachable, ReachState, reachable, flapping, unreachable,
}
use ocelot.Tracker.Replica.{
  ReplicaClass, ephemeral, cache, standard, pinned, archival, NodeReplicaState, absent, requested,
  counts_as_verified, NodeReplica, ReplicaKey, key_eq, NodeReplicaMap, get_or_create,
  replica_transition, force_evict, upgrade_class, class_rank, state_rank, for_hash, verified_count,
}
use ocelot.Tracker.Replication.{Popularity, Counter, evaluate}

pub data SwarmDirective : Type 0 where
  join_swarm retire_replica : SwarmDirective

pub record ControllerAction : Type 0 where
  pub directive : SwarmDirective
  pub node : ℕ
  pub hash : String
  pub class : ReplicaClass

-- The capacity of the channel of directives.
abbrev pub channel_size : ℕ
channel_size = 256

abbrev pub heat_cycle_promote : ℕ
heat_cycle_promote = 3

-- `select { case c.directives <- a: … default: … }`
unfoldable pub try_send : ControllerAction → List ControllerAction → Option (List ControllerAction)
try_send a queue = if ltb (length queue) channel_size then some (queue ++ a ∷ []) else none

abbrev pub is_absent : NodeReplicaState → Bool
is_absent absent = true
is_absent _ = false

-- The copies, and the directives that no agent has received yet.
pub record Board : Type 0 where
  pub replicas : NodeReplicaMap
  pub directives : List ControllerAction

abbrev pub key_of : ℕ → String → ReplicaKey
key_of node hash = record { key_node = node; key_hash = hash }

abbrev pub join : ℕ → String → ReplicaClass → ControllerAction
join node hash class = record { directive = join_swarm; node = node; hash = hash; class = class }

abbrev pub retire : ℕ → String → ControllerAction
retire node hash = record {
  directive = retire_replica;
  node = node;
  hash = hash;
  class = ephemeral;
}

-- The body of the loop over the candidates: the new board, and whether a directive was sent.
unfoldable pub signal_one : ℕ → String → ReplicaClass → ℕ → Board → Board × Bool
unfolding get_or_create replica_transition try_send
signal_one now hash class node b =
    let key = key_of node hash in
    let (replicas, r) = get_or_create key class now b.replicas in
    if not (is_absent r.state)
    then (record b { replicas = replicas }, false)
    else let (asked, allowed) = replica_transition requested now r in
      if not allowed
      then (record b { replicas = replicas }, false)
      else elim (try_send (join node hash class) b.directives) [
        | some queue ↦ (record { replicas = insert key asked replicas; directives = queue }, true)
        | none ↦ (
          record b { replicas = insert key (replica_transition absent now asked).0 replicas },
          false,
        )
      ]

-- The loop, for `left` directives more.
unfoldable pub signal : ℕ → String → ReplicaClass → List ℕ → ℕ → Board → Board
unfolding signal_one
signal now hash class [] left b = b
signal now hash class (n ∷ ns) left b =
    let (u, sent) = signal_one now hash class n b in
    let rest = signal now hash class ns (if sent then left - 1 else left) u in
    if left == 0 then b else rest

-- The visitor of `retireGraceExpired`, at one copy.
unfoldable pub retire_grace_one : Map ℕ NodeIdentity → ℕ → String → NodeReplica → Board → Board
unfolding counts_as_verified force_evict try_send
retire_grace_one nodes now hash r b =
    if not (counts_as_verified r.state) then b else elim (lookup r.node_id nodes) [
      | none ↦ b
      | some n ↦ elim n.last_flap [
        | none ↦ b
        | some flap ↦
            if not (is_unreachable n.reach_state) || leb (now - flap) grace_ttl
            then b
            else let evicted = insert (key_of r.node_id hash) (force_evict now r) b.replicas in
              elim (try_send (retire r.node_id hash) b.directives) [
                | some queue ↦ record { replicas = evicted; directives = queue }
                | none ↦ record b { replicas = evicted }
              ]
      ]
    ]

abbrev visit_all {ℓ} : {S : Type ℓ} → (NodeReplica → S → S) → List NodeReplica → S → S
visit_all f [] s = s
visit_all f (r ∷ rs) s = visit_all f rs (f r s)

unfoldable pub retire_grace_expired : Map ℕ NodeIdentity → ℕ → String → Board → Board
unfolding retire_grace_one for_hash
retire_grace_expired nodes now hash b =
    visit_all (retire_grace_one nodes now hash) (for_hash hash b.replicas) b

unfoldable pub is_retiree : (ℕ → Bool) → NodeReplica → Bool
unfolding counts_as_verified class_rank
is_retiree of_class r = counts_as_verified r.state && of_class (class_rank r.class)

-- The copies to retire, those of the lower classes first, and the standard ones if these are too few.
unfoldable pub retirees : String → ℕ → NodeReplicaMap → List ℕ
unfolding is_retiree for_hash
retirees hash surplus m =
    let low = map (λ r. r.node_id) (select (is_retiree (λ k. leb k 1)) (for_hash hash m)) in
    if ltb (length low) surplus
    then low ++ map (λ r. r.node_id) (select (is_retiree (λ k. k == 2)) (for_hash hash m))
    else low

-- The loop over them; a full channel ends it.
unfoldable pub send_retirements :
    String → List ℕ → ℕ → List ControllerAction → List ControllerAction
unfolding try_send
send_retirements hash [] left queue = queue
send_retirements hash (n ∷ ns) zero queue = queue
send_retirements hash (n ∷ ns) (suc left) queue = elim (try_send (retire n hash) queue) [
  | none ↦ queue
  | some longer ↦ send_retirements hash ns left longer
]

unfoldable pub select_retirements : String → ℕ → Board → Board
unfolding retirees send_retirements
select_retirements hash surplus b = record b {
  directives = send_retirements hash (retirees hash surplus b.replicas) surplus b.directives;
}

-- The nodes that hold the artifact in a state that is not absent.
unfoldable pub existing_node_set : String → NodeReplicaMap → List ℕ
unfolding for_hash
existing_node_set hash m =
    map (λ r. r.node_id) (select (λ r. not (is_absent r.state)) (for_hash hash m))

unfoldable pub has_verified_core_replica : Map ℕ NodeIdentity → String → NodeReplicaMap → Bool
unfolding counts_as_verified
has_verified_core_replica [] hash m = false
has_verified_core_replica ((id, n) ∷ ns) hash m =
    elim n.tier [
      | core ↦ elim (lookup (key_of n.node_id hash) m) [
        | none ↦ false
        | some r ↦ counts_as_verified r.state
      ]
      | regional ↦ false
      | edge ↦ false
    ]
    || has_verified_core_replica ns hash m

abbrev pub is_edge : NodeTier → Bool
is_edge edge = true
is_edge _ = false

-- The guards of the loop that scores the nodes.
unfoldable pub is_eligible : ℕ → List ℕ → Bool → NodeIdentity → Bool
unfolding is_near_cap
is_eligible today existing has_core n =
    not (any (λ id. id == n.node_id) existing)
    && (not (is_near_cap today n.wan).1 && not (is_edge n.tier && not has_core))

module _ (higher : NodeIdentity → NodeIdentity → Bool) where
  -- The insertion sort: a node moves past those of lower scores. The sorted part is held in reverse.
  unfoldable pub move_up : NodeIdentity → List NodeIdentity → List NodeIdentity
  move_up n [] = n ∷ []
  move_up n (m ∷ ms) = let rest = move_up n ms in if higher n m then m ∷ rest else n ∷ m ∷ ms

  unfoldable pub sort_onto : List NodeIdentity → List NodeIdentity → List NodeIdentity
  unfolding move_up
  sort_onto sorted [] = sorted
  sort_onto sorted (n ∷ ns) = sort_onto (move_up n sorted) ns

  unfoldable pub back_onto : List NodeIdentity → List NodeIdentity → List NodeIdentity
  back_onto out [] = out
  back_onto out (n ∷ ns) = back_onto (n ∷ out) ns

  unfoldable pub score_candidates :
      ℕ → String → Map ℕ NodeIdentity → NodeReplicaMap → List NodeIdentity
  unfolding sort_onto back_onto is_eligible directable_nodes existing_node_set
      has_verified_core_replica
  score_candidates today hash nodes m = back_onto [] (
      sort_onto [] (
        select
          (is_eligible today (existing_node_set hash m) (has_verified_core_replica nodes hash m))
          (directable_nodes nodes)))

-- `c.heatCycles[key]`
unfoldable pub cycles_of : ReplicaKey → Map ReplicaKey ℕ → ℕ
cycles_of key m = elim (lookup key m) [ none ↦ 0 | some k ↦ k ]

module _ (pop : Popularity) where
  pub record Controller : Type 0 where
    pub nodes : Map ℕ NodeIdentity
    pub board : Board
    pub counter : Counter pop
    pub heat_cycles : Map ReplicaKey ℕ

  -- The visitor of `classifyEdgeReplicas`, at one copy. `hot` tells of a network, the low 16 bits of
  -- its number, whether its fraction of the demand is over the threshold.
  unfoldable pub classify_one : (ℕ → Bool) → String → NodeReplica → Controller → Controller
  unfolding counts_as_verified class_rank upgrade_class cycles_of
  classify_one hot hash r c =
      if not (counts_as_verified r.state) || not (class_rank r.class == 0)
      then c
      else elim (lookup r.node_id c.nodes) [
        | none ↦ c
        | some n ↦
            let key = key_of r.node_id hash in
            let before = cycles_of key c.heat_cycles in
            if not (is_edge n.tier) || n.asn == 0
            then c
            else (if hot n.asn
                then record c {
                  heat_cycles = insert key (suc before) c.heat_cycles;
                  board =
                      if leb heat_cycle_promote (suc before)
                      then record c.board {
                        replicas = insert key (upgrade_class cache r).0 c.board.replicas;
                      }
                      else c.board;
                }
                else record c { heat_cycles = insert key 0 c.heat_cycles })
      ]

  unfoldable pub classify_edge_replicas : Option (ℕ → Bool) → String → Controller → Controller
  unfolding classify_one for_hash
  classify_edge_replicas none hash c = c
  classify_edge_replicas (some hot) hash c =
      visit_all (classify_one hot hash) (for_hash hash c.board.replicas) c

  -- What the artifact and its torrent show: the demand by networks if any was recorded, the bounds,
  -- the seeders.
  pub record Observed : Type 0 where
    pub heat : Option (ℕ → Bool)
    pub min_replicas : ℤ
    pub max_replicas : ℤ
    pub raw_seeders : ℕ

  unfoldable pub reconcile_artifact :
      (NodeIdentity → NodeIdentity → Bool) → ℕ → ℕ → String → Observed → Controller → Controller
  unfolding classify_edge_replicas retire_grace_expired evaluate select_retirements score_candidates
      signal verified_count
  reconcile_artifact higher today now hash o c =
      let d = classify_edge_replicas o.heat hash c in
      let b = retire_grace_expired d.nodes now hash d.board in
      let counter = evaluate pop o.raw_seeders o.min_replicas o.max_replicas d.counter in
      let deficit = counter.current_desired -ℤ pos (verified_count hash b.replicas) in
      if leb_ℤ deficit (pos 0)
      then record d {
        counter = counter;
        board =
            if ltb_ℤ deficit (pos 0)
            then select_retirements hash (pos_part (pos 0 -ℤ deficit)) b
            else b;
      }
      else record d {
        counter = counter;
        board =
            signal now hash standard
              (map (λ n. n.node_id) (score_candidates higher today hash d.nodes b.replicas))
              (pos_part deficit) b;
      }
