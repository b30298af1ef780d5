-- ===== src/VirtualServer/Store/Nodes/Heartbeats.antt =====
-- What a heartbeat may do to the state of a node, and the race with a change of state.
use ocelot.Prelude.{
  ℕ, ◌≡◌, refl, ap, ◌⊎◌, inl, inr, Option, none, some, String, if◌then◌else◌, string_eq, ◌==◌,
  Option-cases, Bool-cases, arith, ◌≢◌, if_pos,
}
use ocelot.Prelude.Int.{ℤ}
use ocelot.Prelude.Map.{lookup, insert, lookup-insert}
use text.Mathlib.TextEquality.{eq_iff}
use ocelot.VirtualServer.Domain.Node.{
  NodeState, NodeState-discrete, validate_node_transition, is_protected_node_state, allowed_node,
}
use ocelot.VirtualServer.Store.Nodes.{
  Node, Table, commit, update_node_state, heartbeat_state, record_heartbeat, heartbeat,
}

unfoldable pub state_of : String → Table → Option NodeState
state_of id t = elim (lookup id t) [ none ↦ none | some n ↦ some n.state ]

state_of-row :
    (id : String) (n : Node) (t : Table) → lookup id t ≡ some n → state_of id t ≡ some n.state
unfolding state_of
state_of-row id n t e = rw (e, state_of)

state_of-insert :
    (id other : String) (n : Node) (t : Table)
    → state_of other (insert id n t) ≡ (if id == other then some n.state else state_of other t)
unfolding state_of
state_of-insert id other n t = elim (Bool-cases (id == other)) [
  | inl hit ↦ rw (hit, lookup-insert id other n t, state_of) (rw hit)
  | inr miss ↦ ground (arith, lookup-insert id other n t)
]

state_of-record_heartbeat :
    (id other : String) (s : NodeState) (ram cpu : ℤ) (now : ℕ) (n : Node) (t : Table)
    → lookup id t ≡ some n
    → state_of other (record_heartbeat id s ram cpu now t)
      ≡ (if id == other then some s else state_of other t)
unfolding record_heartbeat
state_of-record_heartbeat id other s ram cpu now n t e =
    rw (e, record_heartbeat) (state_of-insert id other _ t)

heartbeat_state_cases :
    (s : NodeState)
    → (heartbeat_state s ≡ s) ⊎ ((s ≡ NodeState.discovered) × (heartbeat_state s ≡ NodeState.ready))
unfolding heartbeat_state is_protected_node_state
heartbeat_state_cases s = ground arith

-- With nothing in between, a heartbeat changes the state of no node but that of one that was
-- discovered, which becomes ready; so a protected node keeps its state.
pub heartbeat_alone :
    (id other : String) (ram cpu : ℤ) (now : ℕ) (t : Table)
    → let u = (heartbeat id ram cpu now (λ w. w) t).0 in
      (state_of other u ≡ state_of other t)
      ⊎ ((state_of other t ≡ some NodeState.discovered) × (state_of other u ≡ some NodeState.ready))
unfolding heartbeat
heartbeat_alone id other ram cpu now t = elim (Option-cases (lookup id t)) [
  | inl absent ↦ rw (absent, heartbeat) (inl refl)
  | inr (n, e) ↦
      rw
        (
          e,
          heartbeat,
          state_of-record_heartbeat id other (heartbeat_state n.state) ram cpu now n t e,
        )
        (elim (Bool-cases (id == other)) [
          | inr miss ↦ rw miss (inl refl)
          | inl hit ↦
              rw (hit, ← (eq_iff id other).0 hit, state_of-row id n t e)
                (elim (heartbeat_state_cases n.state) [
                  | inl kept ↦ inl (ap some kept)
                  | inr (found, promoted) ↦ inr (ap some found, ap some promoted)
                ])
        ])
]

commit_unchanged :
    (id : String) (to : NodeState) (at : ℕ) (n : Node) (t : Table)
    → lookup id t ≡ some n
    → commit id n.state to at t ≡ (insert id (record n { state = to; updated_at = at }) t, none)
unfolding commit
commit_unchanged id to at n t e =
    rw (e, commit) (if_pos (NodeState-discrete n.state n.state) refl _ _)

quarantine-row :
    (id : String) (at : ℕ) (n : Node) (t : Table)
    → lookup id t ≡ some n
    → validate_node_transition n.state NodeState.quarantined ≡ none
    → lookup id (update_node_state id NodeState.quarantined at (λ w. w) t).0
      ≡ some (record n { state = NodeState.quarantined; updated_at = at })
unfolding update_node_state
quarantine-row id at n t e ok =
    rw (e, update_node_state, ok)
      (rw (commit_unchanged id NodeState.quarantined at n t e)
        (rw (lookup-insert id id, (eq_iff id id).1 refl)))

not_quarantined :
    (s : NodeState)
    → validate_node_transition s NodeState.quarantined ≡ none
    → heartbeat_state s ≢ NodeState.quarantined
unfolding validate_node_transition allowed_node heartbeat_state is_protected_node_state
not_quarantined s ok h = ground arith

-- A quarantine that the table has and that lands between the read of a heartbeat and its write is
-- lost: the node was quarantined, and ends in the state that the heartbeat makes of the one before,
-- which is not `quarantined`.
pub heartbeat_undoes_quarantine :
    (id : String) (ram cpu : ℤ) (at now : ℕ) (n : Node) (t : Table)
    → lookup id t ≡ some n
    → validate_node_transition n.state NodeState.quarantined ≡ none
    → let quarantine =
        λ (u : Table). (update_node_state id NodeState.quarantined at (λ w. w) u).0 in
      (state_of id (quarantine t) ≡ some NodeState.quarantined)
      × (state_of id (heartbeat id ram cpu now quarantine t).0 ≡ some (heartbeat_state n.state))
      × (heartbeat_state n.state ≢ NodeState.quarantined)
unfolding heartbeat
heartbeat_undoes_quarantine id ram cpu at now n t e ok =
    let row = quarantine-row id at n t e ok in
    (
      state_of-row id _ _ row,
      rw (
        e,
        heartbeat,
        state_of-record_heartbeat id id (heartbeat_state n.state) ram cpu now _ _ row,
        (eq_iff id id).1 refl,
      ),
      not_quarantined n.state ok,
    )
