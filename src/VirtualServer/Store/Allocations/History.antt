-- ===== src/VirtualServer/Store/Allocations/History.antt =====
-- What holds after any history of reservations and releases.
use ocelot.Prelude.{
  ℕ, ◌≡◌, refl, ◌∙◌, inl, inr, ◌||◌, not, Option, some, List, [], ◌∷◌, String, arith, is_some, ◌==◌,
  nat_eq, string_eq, Option-cases, Bool-cases,
}
use ocelot.Prelude.Int.{ℤ}
use ocelot.Prelude.Map.{Map, lookup, insert, lookup-insert}
use ocelot.VirtualServer.Store.Allocations.{
  NodeRow, Allocation, Tables, refusal, reserve, has_instance, allocate_resources, give_back,
  get_active_allocation, release_allocation,
}
use ocelot.VirtualServer.Store.Allocations.Conservation.{
  Conserved, IsValid, allocate_resources-Conserved, release_allocation-Conserved,
}

pub data Call : Type 0 where
  allocates : String → String → ℤ → ℤ → Option ℕ → ℕ → Call
  releases : String → ℕ → Call

unfoldable pub step : Call → Tables → Tables
step (allocates instance node cpu ram gpu now) t =
    (allocate_resources instance node cpu ram gpu now t).0
step (releases instance now) t = release_allocation instance now t

unfoldable pub run : List Call → Tables → Tables
unfolding step
run [] t = t
run (c ∷ cs) t = run cs (step c t)

HasRow : String → Map String NodeRow → Type 0
HasRow node nodes = (n : NodeRow) × (lookup node nodes ≡ some n)

HasRow-insert :
    (node other : String) (n' : NodeRow) (nodes : Map String NodeRow)
    → HasRow other nodes
    → HasRow other (insert node n' nodes)
unfolding HasRow
HasRow-insert node other n' nodes (n, e) = elim (Bool-cases (node == other)) [
  | inl hit ↦ (n', rw (lookup-insert node other n' nodes, hit))
  | inr miss ↦ (n, rw (lookup-insert node other n' nodes, miss) e)
]

-- The tables after both writes of an operation are valid, if the written row names a known node.
write-IsValid :
    (node instance : String) (n' : NodeRow) (a' : Allocation) (t : Tables)
    → IsValid t
    → HasRow a'.node_id t.nodes
    → IsValid (record t {
      nodes = insert node n' t.nodes;
      allocations = insert instance a' t.allocations;
    })
unfolding HasRow
write-IsValid node instance n' a' t v known = record {
  node_exists = λ i a e.
      HasRow-insert node a.node_id n' t.nodes (elim (Bool-cases (instance == i)) [
        | inl hit ↦
            let same : a' ≡ a = ground (arith, lookup-insert instance i a' t.allocations) in
            rw (← same) known
        | inr miss ↦ v.node_exists i a (ground (arith, lookup-insert instance i a' t.allocations))
      ]);
}

reserve-IsValid :
    (instance node : String) (cpu ram : ℤ) (gpu : Option ℕ) (now : ℕ) (n : NodeRow) (t : Tables)
    → IsValid t
    → lookup node t.nodes ≡ some n
    → IsValid (reserve instance node cpu ram gpu now n t).0
unfolding reserve HasRow
reserve-IsValid instance node cpu ram gpu now n t v e =
    elim (Bool-cases
      (is_some (lookup instance t.allocations) || not (has_instance instance t.instances))) [
        | inl bad ↦ rw bad v
        | inr good ↦ rw good (write-IsValid node instance _ _ t v (n, e))
      ]

allocate_resources-IsValid :
    (instance node : String) (cpu ram : ℤ) (gpu : Option ℕ) (now : ℕ) (t : Tables)
    → IsValid t
    → IsValid (allocate_resources instance node cpu ram gpu now t).0
unfolding allocate_resources
allocate_resources-IsValid instance node cpu ram gpu now t v =
    elim (Option-cases (lookup node t.nodes)) [
      | inl absent ↦ rw (absent, allocate_resources) v
      | inr (n, e) ↦ elim (Option-cases (refusal cpu ram gpu n)) [
        | inl passed ↦
            rw (e, allocate_resources, passed)
              (reserve-IsValid instance node cpu ram gpu now n t v e)
        | inr (x, refused) ↦ rw (e, allocate_resources, refused) v
      ]
    ]

release_allocation-IsValid :
    (instance : String) (now : ℕ) (t : Tables)
    → IsValid t
    → IsValid (release_allocation instance now t)
unfolding release_allocation get_active_allocation give_back HasRow
release_allocation-IsValid instance now t v = elim (Option-cases (lookup instance t.allocations)) [
  | inl absent ↦ rw (absent, release_allocation) v
  | inr (a, e) ↦ elim (Bool-cases (is_some a.released_at)) [
    | inl over ↦ rw (e, release_allocation, over) v
    | inr active ↦
        let (n, at) = v.node_exists instance a e in
        rw (e, release_allocation, active, at, give_back)
          (write-IsValid a.node_id instance _ _ t v (n, at))
  ]
]

step-IsValid : (c : Call) (t : Tables) → IsValid t → IsValid (step c t)
unfolding step
step-IsValid (allocates instance node cpu ram gpu now) t v =
    allocate_resources-IsValid instance node cpu ram gpu now t v
step-IsValid (releases instance now) t v = release_allocation-IsValid instance now t v

step-Conserved : (c : Call) (t : Tables) → IsValid t → Conserved t (step c t)
unfolding step
step-Conserved (allocates instance node cpu ram gpu now) t v =
    allocate_resources-Conserved instance node cpu ram gpu now t
step-Conserved (releases instance now) t v = release_allocation-Conserved instance now t v

-- After any history of reservations and releases, each allocation still names a node of the table,
-- and what every node has free and what is held of it add up to what they did before.
pub run-Conserved :
    (cs : List Call) (t : Tables) → IsValid t → IsValid (run cs t) × Conserved t (run cs t)
unfolding run
run-Conserved [] t v = (v, λ node. (refl, refl))
run-Conserved (c ∷ cs) t v =
    let (valid, rest) = run-Conserved cs (step c t) (step-IsValid c t v) in
    let now = step-Conserved c t v in
    (valid, λ node. ((rest node).0 ∙ (now node).0, (rest node).1 ∙ (now node).1))
