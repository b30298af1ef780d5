-- ===== src/VirtualServer/Store/Operations/Races.antt =====
-- The completion time of an operation, and the race between two updates of one operation.
use ocelot.Prelude.{
  ℕ, ◌≡◌, refl, inl, inr, true, false, Option, none, some, String, if◌then◌else◌, string_eq,
  is_some, ◌==◌, Option-cases, Bool-cases, arith,
}
use ocelot.Prelude.Map.{lookup, insert, lookup-insert}
use text.Mathlib.TextEquality.{eq_iff}
use ocelot.VirtualServer.Domain.Operation.{
  OperationState, validate_operation_transition, allowed_operation,
}
use ocelot.VirtualServer.Store.Operations.{
  Operation, Table, overwrite, update_operation_state, is_completed,
}

-- An operation has a completion time exactly while it is succeeded, failed or cancelled.
abbrev pub IsStamped : Table → Type 0
IsStamped t =
    (id : String) (o : Operation)
    → lookup id t ≡ some o
    → is_some o.completed_at ≡ is_completed o.state

insert-IsStamped :
    (id : String) (o : Operation) (t : Table)
    → is_some o.completed_at ≡ is_completed o.state
    → IsStamped t
    → IsStamped (insert id o t)
insert-IsStamped id o t h v other p e = elim (Bool-cases (id == other)) [
  | inl hit ↦ let same : o ≡ p = ground (arith, lookup-insert id other o t) in rw (← same) h
  | inr miss ↦ v other p (ground (arith, lookup-insert id other o t))
]

overwrite-IsStamped :
    (id : String) (to : OperationState) (now : ℕ) (t : Table)
    → IsStamped t
    → IsStamped (overwrite id to now t)
unfolding overwrite
overwrite-IsStamped id to now t v = elim (Option-cases (lookup id t)) [
  | inl absent ↦ rw (absent, overwrite) v
  | inr (o, e) ↦ rw (e, overwrite) (insert-IsStamped id _ t (ground arith) v)
]

-- Creating and updating operations keeps completion times and states in step, whatever other
-- goroutines that do so too have done between the read and the write.
pub update_operation_state-IsStamped :
    (id : String) (to : OperationState) (now : ℕ) (between : Table → Table) (t : Table)
    → IsStamped (between t)
    → IsStamped (update_operation_state id to now between t).0
unfolding update_operation_state
update_operation_state-IsStamped id to now between t v = elim (Option-cases (lookup id t)) [
  | inl absent ↦ rw (absent, update_operation_state) v
  | inr (o, e) ↦ elim (Option-cases (validate_operation_transition o.state to)) [
    | inr (x, bad) ↦ rw (e, update_operation_state, bad) v
    | inl good ↦ rw (e, update_operation_state, good) (overwrite-IsStamped id to now (between t) v)
  ]
]

unfoldable pub state_of : String → Table → Option OperationState
state_of id t = elim (lookup id t) [ none ↦ none | some o ↦ some o.state ]

overwrite-row :
    (id : String) (to : OperationState) (now : ℕ) (o : Operation) (t : Table)
    → lookup id t ≡ some o
    → lookup id (overwrite id to now t)
      ≡ some (record o {
        state = to;
        updated_at = now;
        completed_at = if is_completed to then some now else none;
      })
unfolding overwrite
overwrite-row id to now o t e = rw (e, overwrite, lookup-insert id id, (eq_iff id id).1 refl)

update_operation_state-accepted :
    (id : String) (to : OperationState) (now : ℕ) (between : Table → Table) (o : Operation)
    (t : Table)
    → lookup id t ≡ some o
    → validate_operation_transition o.state to ≡ none
    → update_operation_state id to now between t ≡ (overwrite id to now (between t), none)
unfolding update_operation_state
update_operation_state-accepted id to now between o t e ok = rw (e, update_operation_state, ok)

completed_is_final :
    (to₁ to₂ : OperationState) → is_completed to₁ ≡ true → allowed_operation to₁ to₂ ≡ false
unfolding is_completed allowed_operation
completed_is_final to₁ to₂ h = ground arith

-- The write of `UpdateOperationState` does not test the state again. So where two goroutines read an
-- operation before either writes, and each asks for a transition that the table has from that state,
-- both calls report success; a completed operation that the first one leaves in `to₁` is then moved
-- to `to₂`, though the table has no transition from `to₁`.
pub update_operation_state_race :
    (id : String) (to₁ to₂ : OperationState) (now₁ now₂ : ℕ) (o : Operation) (t : Table)
    → lookup id t ≡ some o
    → validate_operation_transition o.state to₁ ≡ none
    → validate_operation_transition o.state to₂ ≡ none
    → is_completed to₁ ≡ true
    → let first = λ (u : Table). (update_operation_state id to₁ now₁ (λ w. w) u).0 in
      let r = update_operation_state id to₂ now₂ first t in
      ((update_operation_state id to₁ now₁ (λ w. w) t).1 ≡ none)
      × (state_of id (first t) ≡ some to₁)
      × (r.1 ≡ none)
      × (state_of id r.0 ≡ some to₂)
      × (allowed_operation to₁ to₂ ≡ false)
unfolding state_of
update_operation_state_race id to₁ to₂ now₁ now₂ o t e ok₁ ok₂ done =
    let row = overwrite-row id to₁ now₁ o t e in
    let again = overwrite-row id to₂ now₂ _ (overwrite id to₁ now₁ t) row in
    (
      rw (update_operation_state-accepted id to₁ now₁ (λ w. w) o t e ok₁),
      rw (update_operation_state-accepted id to₁ now₁ (λ w. w) o t e ok₁, row, state_of),
      rw (update_operation_state-accepted id to₂ now₂ _ o t e ok₂),
      rw (
        update_operation_state-accepted id to₂ now₂ _ o t e ok₂,
        update_operation_state-accepted id to₁ now₁ (λ w. w) o t e ok₁,
        again,
        state_of,
      ),
      completed_is_final to₁ to₂ done,
    )
