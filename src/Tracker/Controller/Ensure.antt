-- ===== src/Tracker/Controller/Ensure.antt =====
-- `EnsureArtifact` of tracker/swarm_controller.go: an operator asks for a copy on one node.
use ocelot.Prelude.{
  ℕ, ◌≡◌, inl, inr, refl, Bool, true, false, not, none, some, String, List, any, if◌then◌else◌,
  nat_eq, string_eq, ◌==◌, Bool-cases,
}
use ocelot.Prelude.Map.{Map, lookup, insert, lookup-insert_self}
use ocelot.Prelude.Results.{Result, ok, err, guard, ◌>>◌, Result-cases}
use ocelot.Tracker.Nodes.{NodeIdentity}
use ocelot.Tracker.Replica.{
  ReplicaClass, ephemeral, cache, standard, pinned, archival, NodeReplicaState, absent, requested,
  NodeReplica, key_eq, counts_as_verified, get_or_create, replica_transition,
}
use ocelot.Tracker.Controller.{Board, try_send, is_absent, key_of, join}
use ocelot.Tracker.Controller.Signals.{absent_iff, ask, try_send_lem}

pub record EnsureRequest : Type 0 where
  pub info_hash : String
  pub node_id : ℕ
  pub class : String

pub data Message : Type 0 where
  already_verified in_progress join_queued : Message

pub record EnsureResult : Type 0 where
  pub state : NodeReplicaState
  pub queued : Bool
  pub message : Message

pub data EnsureError : Type 0 where
  unregistered_artifact unregistered_node refused_transition full_channel : EnsureError

unfoldable pub parse_replica_class : String → ReplicaClass
parse_replica_class s =
    if s == "ephemeral"
    then ephemeral
    else (if s == "cache"
        then cache
        else (if s == "pinned" then pinned else (if s == "archival" then archival else standard)))

-- `c.artifacts.Get` and `c.nodes.Get`
abbrev pub is_registered :
    List String → Map ℕ NodeIdentity → EnsureRequest → Result EnsureError (Unit {0})
is_registered artifacts nodes req =
    guard (any (λ h. h == req.info_hash) artifacts) unregistered_artifact
    >> (elim (lookup req.node_id nodes) [ none ↦ err unregistered_node | some _ ↦ ok tt ])

-- What follows the two guards.
unfoldable pub ensure_replica : ℕ → EnsureRequest → Board → Board × Result EnsureError EnsureResult
unfolding parse_replica_class get_or_create counts_as_verified replica_transition try_send
ensure_replica now req b =
    let class = parse_replica_class req.class in
    let key = key_of req.node_id req.info_hash in
    let (replicas, r) = get_or_create key class now b.replicas in
    let created = record b { replicas = replicas } in
    if counts_as_verified r.state
    then (created, ok (record { state = r.state; queued = false; message = already_verified }))
    else (if not (is_absent r.state)
        then (created, ok (record { state = r.state; queued = false; message = in_progress }))
        else let (asked, allowed) = replica_transition requested now r in
          if not allowed
          then (created, err refused_transition)
          else elim (try_send (join req.node_id req.info_hash class) b.directives) [
            | some queue ↦ (
              record { replicas = insert key asked replicas; directives = queue },
              ok (record { state = requested; queued = true; message = join_queued }),
            )
            | none ↦ (
              record b { replicas = insert key (replica_transition absent now asked).0 replicas },
              err full_channel,
            )
          ])

unfoldable pub ensure_artifact :
    List String
    → Map ℕ NodeIdentity
    → ℕ
    → EnsureRequest
    → Board
    → Board × Result EnsureError EnsureResult
unfolding ensure_replica
ensure_artifact artifacts nodes now req b = elim (is_registered artifacts nodes req) [
  | err e ↦ (b, err e)
  | ok _ ↦ ensure_replica now req b
]

-- A copy that is requested is answered as such, whenever and with whatever class it is asked for.
ensure_replica-requested :
    (now : ℕ) (req : EnsureRequest) (b : Board) (r : NodeReplica)
    → lookup (key_of req.node_id req.info_hash) b.replicas ≡ some r
    → r.state ≡ requested
    → ensure_replica now req b
      ≡ (b, ok (record { state = requested; queued = false; message = in_progress }))
unfolding ensure_replica get_or_create counts_as_verified
ensure_replica-requested now req b r h e = rw (get_or_create, h, e) refl

-- What a request leaves when it reports a directive: the copy requested.
IsQueued : EnsureRequest → Board → EnsureResult → Type 0
IsQueued req u q =
    q.queued ≡ true
    → (r : NodeReplica) × (lookup (key_of req.node_id req.info_hash) u.replicas ≡ some r)
      × (r.state ≡ requested)

ensure_replica-IsQueued :
    (now : ℕ) (req : EnsureRequest) (b : Board) (q : EnsureResult)
    → (ensure_replica now req b).1 ≡ ok q
    → IsQueued req (ensure_replica now req b).0 q
unfolding ensure_replica IsQueued
ensure_replica-IsQueued now req b q =
    let class = parse_replica_class req.class in
    let key = key_of req.node_id req.info_hash in
    let (m, r) = get_or_create key class now b.replicas in
    elim (Bool-cases (counts_as_verified r.state)) [
      | inl verified ↦ rw verified (λ h t. cc)
      | inr other ↦ elim (Bool-cases (is_absent r.state)) [
        | inr busy ↦ rw (other, busy) (λ h t. cc)
        | inl free ↦
            let (allowed, asked) = ask now r (absent_iff r.state free) in
            let a = (replica_transition requested now r).0 in
            elim (try_send_lem (join req.node_id req.info_hash class) b.directives) [
              | inl full ↦ rw (other, free, allowed, full) (λ h t. cc)
              | inr (sends, room) ↦
                  rw (other, free, allowed, sends) (λ h t. (a, lookup-insert_self key a m, asked))
            ]
      ]
    ]

ensure_artifact-served :
    (artifacts : List String) (nodes : Map ℕ NodeIdentity) (req : EnsureRequest)
    → is_registered artifacts nodes req ≡ ok tt
    → (now : ℕ) (b : Board) → ensure_artifact artifacts nodes now req b ≡ ensure_replica now req b
unfolding ensure_artifact
ensure_artifact-served artifacts nodes req h now b = rw (ensure_artifact, h) refl

-- A request for a copy that reported a directive is not repeated: every later request for the same
-- copy that finds the board so is answered that it is in progress, whatever class it names, and
-- changes neither the copies nor the channel.
pub ensure_artifact_again :
    (artifacts : List String) (nodes : Map ℕ NodeIdentity) (now later : ℕ) (req : EnsureRequest)
    (class : String) (b : Board) (q : EnsureResult)
    → let (u, answer) = ensure_artifact artifacts nodes now req b in
      answer ≡ ok q
      → q.queued ≡ true
      → ensure_artifact artifacts nodes later (record req { class = class }) u
        ≡ (u, ok (record { state = requested; queued = false; message = in_progress }))
unfolding ensure_artifact IsQueued
ensure_artifact_again artifacts nodes now later req class b q =
    elim (Result-cases (is_registered artifacts nodes req)) [
      | inl (e, refused) ↦ rw (ensure_artifact, refused) (λ h t. cc)
      | inr (_, served) ↦
          rw
            (
              ensure_artifact-served artifacts nodes req served now b,
              ensure_artifact-served artifacts nodes (record req { class = class }) served later
                  (ensure_replica now req b).0,
            )
            (λ h t.
              let (r, found, state) = ensure_replica-IsQueued now req b q h t in
              ensure_replica-requested later (record req { class = class })
                (ensure_replica now req b).0 r found state)
    ]
