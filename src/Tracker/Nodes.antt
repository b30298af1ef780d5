-- ===== src/Tracker/Nodes.antt =====
-- tracker/node_registry.go: the managed nodes, how sure the tracker is to reach each, and their upload
-- budgets. A node is one object that the registry holds; here a call on it is a write to its entry.
-- Moments are nanoseconds, addresses lists of bytes.
pub mod Reach
pub mod Addresses
use ocelot.Prelude.{
  ℕ, suc, ◌+◌, ◌-◌, ◌/◌, Bool, true, false, not, ◌&&◌, ◌||◌, Option, none, some, String, List, [],
  ◌∷◌, if◌then◌else◌, ltb, leb, ◌==◌, nat_eq, list_eq, is_some,
}
use ocelot.Prelude.Int.{ℤ, pos, ◌+ℤ◌, ◌*ℤ◌, ltb_ℤ, leb_ℤ, ℤ_beq, i64}
use ocelot.Prelude.Map.{Map, lookup, insert, delete}

pub data NodeTier : Type 0 where
  edge regional core : NodeTier

pub data ReachState : Type 0 where
  reachable flapping unreachable : ReachState

abbrev pub flap_threshold : ℕ
flap_threshold = 3

-- `GraceTTL`
abbrev pub grace_ttl : ℕ
grace_ttl = 600_000_000_000

-- Days are those since the epoch, `none` for the zero time.
pub record WanBudget : Type 0 where
  pub limit_bytes_per_day : ℤ
  pub used_bytes_this_day : ℤ
  pub last_reset : Option ℕ

unfoldable pub reset_if_new_day : ℕ → WanBudget → WanBudget
reset_if_new_day today b = if ℤ_beq b.limit_bytes_per_day (pos 0) then b else elim b.last_reset [
  | none ↦ record b { last_reset = some today }
  | some last ↦
      if last == today then b else record b { used_bytes_this_day = pos 0; last_reset = some today }
]

unfoldable pub record_upload : ℕ → ℤ → WanBudget → WanBudget
unfolding reset_if_new_day
record_upload today bytes b =
    if leb_ℤ bytes (pos 0)
    then b
    else let c = reset_if_new_day today b in
      record c { used_bytes_this_day = i64 (c.used_bytes_this_day +ℤ bytes) }

-- The quotient is floating-point in the source; here the test is exact.
unfoldable pub is_near_cap : ℕ → WanBudget → WanBudget × Bool
unfolding reset_if_new_day
is_near_cap today b =
    if leb_ℤ b.limit_bytes_per_day (pos 0)
    then (b, false)
    else let c = reset_if_new_day today b in
      (c, leb_ℤ (pos 9 *ℤ c.limit_bytes_per_day) (pos 10 *ℤ c.used_bytes_this_day))

-- The fields that the registry and the controller read.
pub record NodeIdentity : Type 0 where
  pub node_id : ℕ
  pub hostname : String
  pub last_ip : List ℕ
  pub tier : NodeTier
  pub asn : ℕ
  pub wan : WanBudget
  pub last_seen : ℕ
  pub reach_state : ReachState
  pub flap_count : ℕ
  pub last_flap : Option ℕ

-- `Heartbeat`, and with a number `HeartbeatWithGeo`.
unfoldable pub heartbeat : List ℕ → ℕ → ℕ → NodeIdentity → NodeIdentity
heartbeat ip asn now n = record n {
  last_ip = ip;
  last_seen = now;
  reach_state = reachable;
  flap_count = 0;
  asn = if asn == 0 then n.asn else asn;
}

unfoldable pub mark_unreachable : NodeIdentity → NodeIdentity
mark_unreachable n = record n { reach_state = unreachable }

abbrev pub is_unreachable : ReachState → Bool
is_unreachable unreachable = true
is_unreachable _ = false

unfoldable pub is_reachable : NodeIdentity → Bool
is_reachable n = not (is_unreachable n.reach_state)

abbrev pub directable : ReachState → Bool
directable reachable = true
directable _ = false

unfoldable pub is_directable : NodeIdentity → Bool
is_directable n = directable n.reach_state

-- The step of `MarkStale` at a node that is stale; the result also tells whether it has just begun to flap.
unfoldable pub miss : ReachState → ℕ → NodeIdentity → NodeIdentity × Bool
miss reachable now n =
    (record n { reach_state = flapping; flap_count = 1; last_flap = some now }, true)
miss flapping now n =
    let m = record n { flap_count = n.flap_count + 1 } in
    (if leb flap_threshold m.flap_count then record m { reach_state = unreachable } else m, false)
miss unreachable now n = (n, false)

unfoldable pub mark_stale_node : ℕ → ℕ → NodeIdentity → NodeIdentity × Bool
unfolding miss
mark_stale_node threshold now n =
    if ltb n.last_seen threshold then miss n.reach_state now n else (n, false)

pub record NodeRegistry : Type 0 where
  pub nodes : Map ℕ NodeIdentity
  pub by_ip : Map (List ℕ) ℕ

-- The nodes of the map in turn, with the ids of those to raise an alert for. No heartbeat comes between
-- the two passes of the source, which test the time again for one that does.
unfoldable pub mark_stale_all : ℕ → ℕ → Map ℕ NodeIdentity → Map ℕ NodeIdentity × List ℕ
unfolding mark_stale_node
mark_stale_all threshold now [] = ([], [])
mark_stale_all threshold now ((id, n) ∷ ns) =
    let (rest, alerts) = mark_stale_all threshold now ns in
    let (m, flaps) = mark_stale_node threshold now n in
    ((id, m) ∷ rest, if flaps then m.node_id ∷ alerts else alerts)

unfoldable pub mark_stale : ℕ → ℕ → NodeRegistry → NodeRegistry × List ℕ
unfolding mark_stale_all
mark_stale cutoff now r =
    let (nodes, alerts) = mark_stale_all (now - cutoff) now r.nodes in
    (record r { nodes = nodes }, alerts)

unfoldable pub register : NodeIdentity → NodeRegistry → NodeRegistry
register n r = record {
  nodes = insert n.node_id n r.nodes;
  by_ip = if n.last_ip == [] then r.by_ip else insert n.last_ip n.node_id r.by_ip;
}

unfoldable pub unregister : ℕ → NodeRegistry → NodeRegistry
unregister id r = record {
  nodes = delete id r.nodes;
  by_ip = elim (lookup id r.nodes) [ none ↦ r.by_ip | some n ↦ delete n.last_ip r.by_ip ];
}

-- A heartbeat of a node that the registry holds.
unfoldable pub heartbeat_of : ℕ → List ℕ → ℕ → ℕ → NodeRegistry → NodeRegistry
unfolding heartbeat
heartbeat_of id ip asn now r = elim (lookup id r.nodes) [
  | none ↦ r
  | some n ↦ record r { nodes = insert id (heartbeat ip asn now n) r.nodes }
]

unfoldable pub get_by_ip : List ℕ → NodeRegistry → Option NodeIdentity
get_by_ip ip r = elim (lookup ip r.by_ip) [ none ↦ none | some id ↦ lookup id r.nodes ]

pub data PeerKind : Type 0 where
  unmanaged managed : PeerKind

unfoldable pub classify_peer : List ℕ → NodeRegistry → PeerKind
classify_peer ip r = if is_some (lookup ip r.by_ip) then managed else unmanaged

unfoldable pub directable_nodes : Map ℕ NodeIdentity → List NodeIdentity
unfolding is_directable
directable_nodes [] = []
directable_nodes ((id, n) ∷ ns) =
    let rest = directable_nodes ns in if is_directable n then n ∷ rest else rest
