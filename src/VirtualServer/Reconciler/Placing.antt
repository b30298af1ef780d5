-- ===== src/VirtualServer/Reconciler/Placing.antt =====
-- The placement of a declared instance on the node that the scheduler selects.
use ocelot.Prelude.{
  ℕ, ◌≡◌, ◌⊎◌, ap, ◌∙◌, refl, Option, none, some, String, List, nat_eq, string_eq, Option-cases,
  inl, inr, true, is_some,
}
use ocelot.Prelude.Map.{lookup, insert, lookup-insert_self}
use ocelot.VirtualServer.Domain.Instance.{
  InstanceState, invalid_transition, validate_instance_transition, is_source, allowed_instance,
}
use ocelot.VirtualServer.Reconciler.{Service, Store, seconds, set_state}
use ocelot.VirtualServer.Reconciler.Passes.{not_allocated, place, once_assigned, reserve, first_gpu}
use ocelot.VirtualServer.Reconciler.Stopping.{commit_same, set_state-refused}
use ocelot.VirtualServer.Scheduler.{Node, Scores}
use ocelot.VirtualServer.Store.Allocations.{
  AllocationError, allocate_resources, get_active_allocation,
}
use ocelot.VirtualServer.Store.Allocations
use ocelot.VirtualServer.Store.Allocations.Grants.{allocate_resources_granted}
use ocelot.VirtualServer.Store.Instances.{Instance, Table, transition, assign_node}

transition_same :
    (id : String) (i : Instance) (to : InstanceState) (write : Instance → Instance) (t : Table)
    → lookup id t ≡ some i
    → validate_instance_transition i.state to ≡ none
    → transition id to write (λ u. u) t ≡ (insert id (write i) t, none)
unfolding transition
transition_same id i to write t found fine =
    rw (transition, found, fine) (commit_same id i write t found)

-- The instance on its node.
abbrev placed : String → ℕ → Instance → Instance
placed node now i = record i {
  node_id = node;
  state = InstanceState.scheduled;
  updated_at = seconds now;
}

assign_node-declared :
    (id node : String) (now : ℕ) (i : Instance) (t : Table)
    → lookup id t ≡ some i
    → i.state ≡ InstanceState.declared
    → assign_node id node (seconds now) (λ u. u) t ≡ (insert id (placed node now i) t, none)
unfolding assign_node validate_instance_transition is_source allowed_instance
assign_node-declared id node now i t found declared =
    transition_same id i InstanceState.scheduled (placed node now) t found (rw declared refl)

set_state-resources :
    (id : String) (to : InstanceState) (now : ℕ) (s : Store)
    → (set_state id to now s).resources ≡ s.resources
unfolding set_state
set_state-resources id to now s = refl

module _ (scores : Scores) (text : List ℕ → String) (svc : Service) (n : Node) where
  abbrev grant : ℕ → String → Store → Allocations.Tables × Option AllocationError
  grant now id s =
      allocate_resources id (text n.id) svc.spec.resources.cpu_threads svc.spec.resources.ram_mib
        (first_gpu svc.spec n) (seconds now) s.resources

  has_allocation :
      (now : ℕ) (id : String) (s : Store)
      → (grant now id s).1 ≡ none
      → is_some (get_active_allocation id (grant now id s).0) ≡ true
  has_allocation now id s granted =
      (allocate_resources_granted id (text n.id) svc.spec.resources.cpu_threads
        svc.spec.resources.ram_mib (first_gpu svc.spec n) (seconds now) s.resources granted).6

  place-reserve :
      (now : ℕ) (id : String) (i : Instance) (s : Store)
      → lookup id s.instances ≡ some i
      → i.state ≡ InstanceState.declared
      → place scores text svc n now id s
        ≡ reserve scores text svc n now id
            (record s { instances = insert id (placed (text n.id) now i) s.instances })
  unfolding place
  place-reserve now id i s found declared =
      ap (once_assigned scores text svc n now id s)
        (assign_node-declared id (text n.id) now i s.instances found declared)

  -- A declared instance is scheduled on the node either way. When the reservation is granted, it has an
  -- active allocation; when it is refused, it does not become declared again, since the table of
  -- transitions does not let it, and the nodes' resources and all allocations are as they were, so
  -- that an instance without an active allocation is scheduled without one.
  pub place_lem :
      (now : ℕ) (id : String) (i : Instance) (s : Store)
      → lookup id s.instances ≡ some i
      → i.state ≡ InstanceState.declared
      → let r = place scores text svc n now id s in
        (lookup id r.0.instances ≡ some (placed (text n.id) now i))
        × ((((grant now id s).1 ≡ none)
              × (r.1 ≡ none)
              × (r.0.resources ≡ (grant now id s).0)
              × (is_some (get_active_allocation id r.0.resources) ≡ true))
            ⊎ ((e : AllocationError) × ((grant now id s).1 ≡ some e)
                × (r.1 ≡ some (not_allocated e))
                × (r.0.resources ≡ s.resources)
                × (get_active_allocation id s.resources ≡ none
                    → get_active_allocation id r.0.resources ≡ none)))
  unfolding reserve validate_instance_transition is_source allowed_instance
  place_lem now id i s found declared =
      let j = placed (text n.id) now i in
      let u : Store = record s { instances = insert id j s.instances } in
      let stored = lookup-insert_self id j s.instances in
      let same = set_state-resources id InstanceState.declared now u in
      rw (place-reserve now id i s found declared) (elim (Option-cases (grant now id s).1) [
        | inl granted ↦
            rw (reserve, granted) (stored, inl (refl, refl, refl, has_allocation now id s granted))
        | inr (e, bad) ↦
            rw (reserve, bad)
              (
                ap (lookup id) (
                      set_state-refused id InstanceState.declared now j
                        (invalid_transition InstanceState.scheduled InstanceState.declared) u stored
                        refl)
                    ∙ stored,
                inr (e, refl, refl, same, λ idle. rw same idle),
              )
      ])
