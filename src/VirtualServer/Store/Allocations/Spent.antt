-- ===== src/VirtualServer/Store/Allocations/Spent.antt =====
-- What a released allocation leaves behind.
use ocelot.Prelude.{
  ℕ, ◌≡◌, refl, inl, inr, true, false, ◌||◌, not, Option, none, some, List, [], ◌∷◌, String, arith,
  is_some, ◌==◌, nat_eq, string_eq, Option-cases, Bool-cases,
}
use ocelot.Prelude.Int.{ℤ}
use ocelot.Prelude.Map.{lookup, lookup-insert, lookup-insert_self}
use ocelot.VirtualServer.Store.Allocations.{
  Allocation, NodeRow, Tables, refusal, reserve, has_instance, allocate_resources,
  get_active_allocation, release_allocation,
}
use ocelot.VirtualServer.Store.Allocations.History.{Call, allocates, releases, step, run}

-- A reservation for an instance that has a row is refused, and changes nothing.
allocate_over_row :
    (instance node : String) (cpu ram : ℤ) (gpu : Option ℕ) (now : ℕ) (b : Allocation) (t : Tables)
    → lookup instance t.allocations ≡ some b
    → let r = allocate_resources instance node cpu ram gpu now t in (is_some r.1 ≡ true) × (r.0 ≡ t)
unfolding allocate_resources reserve
allocate_over_row instance node cpu ram gpu now b t e = elim (Option-cases (lookup node t.nodes)) [
  | inl absent ↦ rw (absent, allocate_resources) (refl, refl)
  | inr (n, at) ↦ elim (Option-cases (refusal cpu ram gpu n)) [
    | inl passed ↦ rw (at, allocate_resources, passed, reserve, e) (refl, refl)
    | inr (x, refused) ↦ rw (at, allocate_resources, refused) (refl, refl)
  ]
]

release_allocation-row :
    (instance : String) (now : ℕ) (a : Allocation) (t : Tables)
    → get_active_allocation instance t ≡ some a
    → lookup instance (release_allocation instance now t).allocations
      ≡ some (record a { released_at = some now })
unfolding release_allocation
release_allocation-row instance now a t e =
    rw (e, release_allocation, lookup-insert_self instance _ t.allocations)

-- The instance has a row, of an allocation that has been released.
unfoldable pub IsSpent : String → Tables → Type 0
IsSpent instance t =
    (a : Allocation) × (lookup instance t.allocations ≡ some a) × (is_some a.released_at ≡ true)

reserve-IsSpent :
    (j instance node : String) (cpu ram : ℤ) (gpu : Option ℕ) (now : ℕ) (n : NodeRow) (t : Tables)
    → IsSpent j t
    → IsSpent j (reserve instance node cpu ram gpu now n t).0
unfolding reserve IsSpent
reserve-IsSpent j instance node cpu ram gpu now n t (a, row, over) =
    elim (Bool-cases
      (is_some (lookup instance t.allocations) || not (has_instance instance t.instances))) [
        | inl bad ↦ rw (reserve, bad) (a, row, over)
        | inr good ↦
            let apart : (instance == j) ≡ false =
              ground (arith, string_eq.equal_iff instance j, row, good) in
            rw (reserve, good) (a, rw (lookup-insert instance j, apart) row, over)
      ]

step-IsSpent : (j : String) (c : Call) (t : Tables) → IsSpent j t → IsSpent j (step c t)
unfolding step allocate_resources release_allocation get_active_allocation IsSpent
step-IsSpent j (allocates instance node cpu ram gpu now) t s =
    elim (Option-cases (lookup node t.nodes)) [
      | inl absent ↦ rw (absent, step, allocate_resources) s
      | inr (n, at) ↦ elim (Option-cases (refusal cpu ram gpu n)) [
        | inl passed ↦
            rw (at, step, allocate_resources, passed)
              (reserve-IsSpent j instance node cpu ram gpu now n t s)
        | inr (x, refused) ↦ rw (at, step, allocate_resources, refused) s
      ]
    ]
step-IsSpent j (releases instance now) t (a, row, over) =
    elim (Option-cases (get_active_allocation instance t)) [
      | inl idle ↦ rw (idle, step, release_allocation) (a, row, over)
      | inr (b, active) ↦
          let apart : (instance == j) ≡ false =
            ground (arith, string_eq.equal_iff instance j, active, row, over) in
          rw (active, step, release_allocation, lookup-insert instance j, apart) (a, row, over)
    ]

run-IsSpent : (j : String) (cs : List Call) (t : Tables) → IsSpent j t → IsSpent j (run cs t)
unfolding run
run-IsSpent j [] t s = s
run-IsSpent j (c ∷ cs) t s = run-IsSpent j cs (step c t) (step-IsSpent j c t s)

spent_is_inactive : (j : String) (t : Tables) → IsSpent j t → get_active_allocation j t ≡ none
unfolding get_active_allocation IsSpent
spent_is_inactive j t (a, row, over) = rw (row, get_active_allocation, over)

-- Once an instance's allocation has been released, no reservation for that instance is ever granted
-- again, whatever reservations and releases come in between: it has no active allocation, and a
-- reservation fails and leaves the tables as they are, since the released row still stands under
-- the unique key.
pub reallocate_refused :
    (instance node : String) (cpu ram : ℤ) (gpu : Option ℕ) (released now : ℕ) (a : Allocation)
    (cs : List Call) (t : Tables)
    → get_active_allocation instance t ≡ some a
    → let t' = run cs (release_allocation instance released t) in
      let r = allocate_resources instance node cpu ram gpu now t' in
      (get_active_allocation instance t' ≡ none) × (is_some r.1 ≡ true) × (r.0 ≡ t')
unfolding IsSpent
reallocate_refused instance node cpu ram gpu released now a cs t e =
    let u = release_allocation instance released t in
    let spent =
      run-IsSpent instance cs u (_, release_allocation-row instance released a t e, refl) in
    let (failed, same) =
      allocate_over_row instance node cpu ram gpu now spent.0 (run cs u) spent.1 in
    (spent_is_inactive instance (run cs u) spent, failed, same)
