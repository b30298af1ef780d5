-- ===== src/VirtualServer/Store/Instances/Races.antt =====
-- The guarded writes keep to the transitions, whatever runs between the read and the lock.
use ocelot.Prelude.{
  ℕ, ◌≡◌, refl, ap, ◌∙◌, ◌⊎◌, inl, inr, true, false, Option, none, some, String, if◌then◌else◌,
  string_eq, is_some, ◌==◌, if_pos, if_neg, Option-cases, Bool-cases, arith,
}
use ocelot.Prelude.Map.{lookup, insert, lookup-insert}
use text.Mathlib.TextEquality.{eq_iff}
use ocelot.VirtualServer.Domain.Instance.{
  InstanceState, InstanceState-discrete, validate_instance_transition, allowed_instance,
}
use ocelot.VirtualServer.Store.Instances.{
  Instance, Table, StoreError, commit, transition, update_instance_state, assign_node,
  increment_retry_count,
}

unfoldable pub state_of : String → Table → Option InstanceState
state_of id t = elim (lookup id t) [ none ↦ none | some i ↦ some i.state ]

-- A write moves every instance along the table of transitions, or leaves its state alone; and one
-- that reports an error leaves the whole table alone.
pub record IsLegal (t : Table) (r : Table × Option StoreError) : Type 0 where
  pub stays_or_moves :
      (id : String)
      → (state_of id r.0 ≡ state_of id t)
        ⊎ ((from to : InstanceState) × (state_of id t ≡ some from)
            × (state_of id r.0 ≡ some to)
            × (allowed_instance from to ≡ true))
  pub fails_unchanged : (is_some r.1 ≡ true) → r.0 ≡ t

unmoved : (t : Table) (e : Option StoreError) → IsLegal t (t, e)
unmoved t e = record { stays_or_moves = λ id. inl refl; fails_unchanged = λ f. refl }

state_of-row :
    (id : String) (i : Instance) (t : Table) → lookup id t ≡ some i → state_of id t ≡ some i.state
unfolding state_of
state_of-row id i t e = rw (e, state_of)

state_of-insert :
    (id other : String) (i : Instance) (t : Table)
    → state_of other (insert id i t) ≡ (if id == other then some i.state else state_of other t)
unfolding state_of
state_of-insert id other i t = elim (Bool-cases (id == other)) [
  | inl hit ↦ rw (hit, lookup-insert id other i t, state_of) (rw hit)
  | inr miss ↦ ground (arith, lookup-insert id other i t)
]

accepted :
    (from to : InstanceState)
    → validate_instance_transition from to ≡ none
    → allowed_instance from to ≡ true
unfolding validate_instance_transition
accepted from to h = ground arith

commit-IsLegal :
    (id : String) (from to : InstanceState) (write : Instance → Instance) (t : Table)
    → ((i : Instance) → (write i).state ≡ to)
    → allowed_instance from to ≡ true
    → IsLegal t (commit id from write t)
unfolding commit
commit-IsLegal id from to write t writes ok = elim (Option-cases (lookup id t)) [
  | inl absent ↦ rw (absent, commit) (unmoved t _)
  | inr (i, e) ↦ elim (InstanceState-discrete i.state from) [
    | no changed ↦ rw (e, commit, if_neg _ changed) (unmoved t _)
    | yes same ↦
        rw (e, commit, if_pos _ same)
          (record {
            stays_or_moves = λ other. elim (Bool-cases (id == other)) [
              | inl hit ↦ inr (
                from,
                to,
                rw (← (eq_iff id other).0 hit) (state_of-row id i t e ∙ ap some same),
                rw (state_of-insert id other (write i) t, hit) (ap some (writes i)),
                ok,
              )
              | inr miss ↦ inl (rw (state_of-insert id other (write i) t, miss))
            ];
            fails_unchanged = λ f. cc;
          })
  ]
]

transition-IsLegal :
    (id : String) (to : InstanceState) (write : Instance → Instance) (between : Table → Table)
    (t : Table)
    → ((i : Instance) → (write i).state ≡ to)
    → IsLegal (between t) (transition id to write between t)
unfolding transition
transition-IsLegal id to write between t writes = elim (Option-cases (lookup id t)) [
  | inl absent ↦ rw (absent, transition) (unmoved (between t) _)
  | inr (i, e) ↦ elim (Option-cases (validate_instance_transition i.state to)) [
    | inr (x, bad) ↦ rw (e, transition, bad) (unmoved (between t) _)
    | inl good ↦
        rw (e, transition, good)
          (commit-IsLegal id i.state to write (between t) writes (accepted i.state to good))
  ]
]

-- `UpdateInstanceState`, whatever other goroutines do to the table between its read and its lock,
-- moves each instance of the table that it then finds by one transition or not at all, and changes
-- nothing when it fails.
pub update_instance_state-IsLegal :
    (id : String) (to : InstanceState) (now : ℕ) (between : Table → Table) (t : Table)
    → IsLegal (between t) (update_instance_state id to now between t)
unfolding update_instance_state
update_instance_state-IsLegal id to now between t = transition-IsLegal id to _ between t (λ i. refl)

pub assign_node-IsLegal :
    (id node : String) (now : ℕ) (between : Table → Table) (t : Table)
    → IsLegal (between t) (assign_node id node now between t)
unfolding assign_node
assign_node-IsLegal id node now between t = transition-IsLegal id _ _ between t (λ i. refl)

-- `IncrementRetryCount` does not ask the table of transitions: it declares an instance anew from any
-- state, the terminal one included, from which the table has no transition.
pub retry_revives :
    (id : String) (now : ℕ) (i : Instance) (t : Table)
    → lookup id t ≡ some i
    → (state_of id (increment_retry_count id now t) ≡ some InstanceState.declared)
      × (i.state ≡ InstanceState.terminated
          → allowed_instance i.state InstanceState.declared ≡ false)
unfolding increment_retry_count allowed_instance
retry_revives id now i t e =
    (rw (e, increment_retry_count, state_of-insert, (eq_iff id id).1 refl), λ h. rw h)
