-- ===== src/Tracker/Replica.antt =====
-- tracker/replica_class.go: the copies of artifacts on the managed nodes. A copy is one object that
-- the registry holds; here a call on it is a write to the registry's entry.
pub mod Topology
use ocelot.Prelude.{
  ℕ, ◌+◌, ◌≡◌, refl, Bool, true, false, ◌&&◌, not, Option, none, some, String, arith, if◌then◌else◌,
  ltb, ◌==◌, nat_eq, string_eq, String-discrete, Comparable, List, [], ◌∷◌, ◌↔◌, suc, select,
  length,
}
use ocelot.Prelude.Map.{Map, lookup, insert, delete}

-- `other` stands for the values of a uint8 that are no constant of the file, from the first on.
pub data ReplicaClass : Type 0 where
  ephemeral cache standard pinned archival : ReplicaClass
  other_class : ℕ → ReplicaClass

unfoldable pub counts_toward_sla : ReplicaClass → Bool
counts_toward_sla standard = true
counts_toward_sla pinned = true
counts_toward_sla _ = false

pub data NodeReplicaState : Type 0 where
  absent requested swarming bt_complete hash_verify verified seeding invalid purge :
      NodeReplicaState
  other_state : ℕ → NodeReplicaState

unfoldable pub counts_as_verified : NodeReplicaState → Bool
counts_as_verified verified = true
counts_as_verified seeding = true
counts_as_verified _ = false

unfoldable pub node_replica_transition : NodeReplicaState → NodeReplicaState → Bool
node_replica_transition absent requested = true
node_replica_transition requested swarming = true
node_replica_transition requested absent = true
node_replica_transition swarming bt_complete = true
node_replica_transition swarming absent = true
node_replica_transition bt_complete hash_verify = true
node_replica_transition hash_verify verified = true
node_replica_transition hash_verify invalid = true
node_replica_transition verified seeding = true
node_replica_transition verified invalid = true
node_replica_transition seeding invalid = true
node_replica_transition seeding absent = true
node_replica_transition invalid purge = true
node_replica_transition purge absent = true
node_replica_transition _ _ = false

pub record NodeReplica : Type 0 where
  pub node_id : ℕ
  pub info_hash : String
  pub class : ReplicaClass
  pub state : NodeReplicaState
  pub retry_count : ℕ
  pub last_transition : ℕ
  pub requested_at : ℕ
  pub verified_at : ℕ

unfoldable pub new_node_replica : ℕ → String → ReplicaClass → ℕ → NodeReplica
new_node_replica node hash class now = record {
  node_id = node;
  info_hash = hash;
  class = class;
  state = absent;
  retry_count = 0;
  last_transition = now;
  requested_at = 0;
  verified_at = 0;
}

-- The number behind a state.
unfoldable pub state_rank : NodeReplicaState → ℕ
state_rank absent = 0
state_rank requested = 1
state_rank swarming = 2
state_rank bt_complete = 3
state_rank hash_verify = 4
state_rank verified = 5
state_rank seeding = 6
state_rank invalid = 7
state_rank purge = 8
state_rank (other_state n) = n + 9

abbrev stamp : NodeReplicaState → ℕ → NodeReplica → NodeReplica
stamp requested now r = record r { requested_at = now }
stamp verified now r = record r { verified_at = now }
stamp _ now r = r

-- The result also tells whether the transition was allowed. The clock is read once.
unfoldable pub replica_transition : NodeReplicaState → ℕ → NodeReplica → NodeReplica × Bool
unfolding state_rank node_replica_transition
replica_transition to now r =
    if state_rank r.state == state_rank to
    then (r, true)
    else (if not (node_replica_transition r.state to)
        then (r, false)
        else (stamp to now (record r { state = to; last_transition = now }), true))

unfoldable pub force_evict : ℕ → NodeReplica → NodeReplica
unfolding counts_as_verified
force_evict now r =
    if counts_as_verified r.state then record r { state = absent; last_transition = now } else r

-- The number behind a class.
unfoldable pub class_rank : ReplicaClass → ℕ
class_rank ephemeral = 0
class_rank cache = 1
class_rank standard = 2
class_rank pinned = 3
class_rank archival = 4
class_rank (other_class n) = n + 5

unfoldable pub upgrade_class : ReplicaClass → NodeReplica → NodeReplica × Bool
unfolding class_rank
upgrade_class to r =
    if ltb (class_rank r.class) (class_rank to) then (record r { class = to }, true) else (r, false)

pub record ReplicaKey : Type 0 where
  pub key_node : ℕ
  pub key_hash : String

abbrev key_beq : ReplicaKey → ReplicaKey → Bool
key_beq k j = k.key_node == j.key_node && k.key_hash == j.key_hash

pub key_beq_iff : (k j : ReplicaKey) → (key_beq k j ≡ true) ↔ (k ≡ j)
key_beq_iff k j =
    ground
      (arith, nat_eq.equal_iff k.key_node j.key_node, string_eq.equal_iff k.key_hash j.key_hash)

instance abbrev pub key_eq : Comparable ReplicaKey
key_eq = record { equal = key_beq; equal_iff = key_beq_iff }

abbrev pub NodeReplicaMap : Type 0
NodeReplicaMap = Map ReplicaKey NodeReplica

unfoldable pub get_or_create :
    ReplicaKey → ReplicaClass → ℕ → NodeReplicaMap → NodeReplicaMap × NodeReplica
unfolding new_node_replica
get_or_create k class now m = elim (lookup k m) [
  | some r ↦ (m, r)
  | none ↦ let r = new_node_replica k.key_node k.key_hash class now in (insert k r m, r)
]

unfoldable pub delete_replica : ReplicaKey → NodeReplicaMap → NodeReplicaMap
delete_replica k m = delete k m

-- `ForHash`: the replicas of one hash, all of them for a visitor that never stops.
unfoldable pub for_hash : String → NodeReplicaMap → List NodeReplica
for_hash hash [] = []
for_hash hash ((k, r) ∷ m) =
    let rest = for_hash hash m in if k.key_hash == hash then r ∷ rest else rest

unfoldable pub counts : NodeReplica → Bool
counts r = counts_as_verified r.state && counts_toward_sla r.class

unfoldable pub verified_count : String → NodeReplicaMap → ℕ
unfolding for_hash counts
verified_count hash m = length (select counts (for_hash hash m))
