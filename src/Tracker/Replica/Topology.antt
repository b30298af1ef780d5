-- ===== src/Tracker/Replica/Topology.antt =====
-- The copies of the registry: which count, and how they come to.
use ocelot.Prelude.{
  ℕ, ◌+◌, suc, ◌≡◌, ◌≢◌, Bool, true, false, ◌&&◌, Option, none, some, String, arith, ◌⊎◌,
  if◌then◌else◌, ◌==◌, string_eq, [], ◌∷◌, select,
}
use ocelot.Prelude.Map.{lookup, insert}
use ocelot.Prelude.Reach.{Reaches, Reaches-keeps}
use ocelot.Tracker.Replica.{
  NodeReplicaState, NodeReplica, ReplicaKey, NodeReplicaMap, key_eq, key_beq_iff,
  counts_as_verified, node_replica_transition, replica_transition, force_evict, for_hash, counts,
  verified_count, state_rank, absent, requested, swarming, bt_complete, hash_verify, verified,
}

-- The transitions that do not lead into `hash_verify`.
unfoldable pub unhashed_transition : NodeReplicaState → NodeReplicaState → Bool
unhashed_transition s hash_verify = false
unhashed_transition s t = node_replica_transition s t

abbrev IsUnhashed : NodeReplicaState → Type 0
IsUnhashed absent = Unit
IsUnhashed requested = Unit
IsUnhashed swarming = Unit
IsUnhashed bt_complete = Unit
IsUnhashed _ = ⊥

unhashed_transition-IsUnhashed :
    (s t : NodeReplicaState) → unhashed_transition s t ≡ true → IsUnhashed s → IsUnhashed t
unfolding unhashed_transition node_replica_transition
unhashed_transition-IsUnhashed s t e h = ground arith

-- A copy that starts absent counts as verified only after its hash has been checked.
pub verified_needs_hash :
    (s : NodeReplicaState) → Reaches unhashed_transition absent s → counts_as_verified s ≢ true
unfolding counts_as_verified
verified_needs_hash s r e =
    ground (arith, Reaches-keeps unhashed_transition IsUnhashed unhashed_transition-IsUnhashed r tt)

-- A copy's transition to any state, from any: it is refused and the copy is unchanged, or the copy
-- was in that state already and is unchanged, or it moves along the table. The node, the hash and
-- the class never change, and the time of verification only when it becomes verified.
pub replica_transition-IsLegal :
    (to : NodeReplicaState) (now : ℕ) (r : NodeReplica)
    → let (u, allowed) = replica_transition to now r in
      ((u ≡ r) × (allowed ≡ false → node_replica_transition r.state to ≡ false)
        ⊎ ((node_replica_transition r.state to ≡ true)
            × (u.state ≡ to)
            × (allowed ≡ true)
            × (u.last_transition ≡ now)))
      × (u.class ≡ r.class)
      × (u.node_id ≡ r.node_id)
      × (u.info_hash ≡ r.info_hash)
      × (u.verified_at ≢ r.verified_at → (to ≡ verified) × (u.verified_at ≡ now))
unfolding replica_transition node_replica_transition state_rank
replica_transition-IsLegal to now r = ground arith

abbrev one_if : Bool → ℕ
one_if true = 1
one_if false = 0

abbrev weight : String → ReplicaKey → Option NodeReplica → ℕ
weight hash k none = 0
weight hash k (some r) = one_if (k.key_hash == hash && counts r)

verified_count-insert :
    (hash : String) (k : ReplicaKey) (r : NodeReplica) (m : NodeReplicaMap)
    → verified_count hash (insert k r m) + weight hash k (lookup k m)
      ≡ verified_count hash m + weight hash k (some r)
unfolding verified_count for_hash insert lookup select
verified_count-insert hash k r [] = ground arith
verified_count-insert hash k r ((j, w) ∷ m) =
    ground (arith, key_beq_iff j k, verified_count-insert hash k r m)

-- Evicting a copy that counted takes exactly one from its hash's count, and evicting any other copy,
-- a second time included, or looking at another hash, leaves the count as it was.
pub force_evict_lowers :
    (k : ReplicaKey) (r : NodeReplica) (now : ℕ) (hash : String) (m : NodeReplicaMap)
    → lookup k m ≡ some r
    → verified_count hash m ≡ (
        if k.key_hash == hash && counts r
        then suc (verified_count hash (insert k (force_evict now r) m))
        else verified_count hash (insert k (force_evict now r) m))
unfolding force_evict counts counts_as_verified
force_evict_lowers k r now hash m h =
    ground (arith, verified_count-insert hash k (force_evict now r) m)
