-- ===== src/Tests/Stores/Allocations.antt =====
-- virtualserver/store/allocation_store.go: one node and one instance.
use ocelot.Prelude.{
  ◌≡◌, refl, true, false, none, some, List, [], ◌∷◌, is_some, arith, ◌⊎◌, string_eq,
}
use ocelot.Prelude.Int.{pos, ◌≤ℤ◌}
use ocelot.Prelude.Map.{lookup, insert}
use ocelot.VirtualServer.Store.Allocations.{
  NodeRow, Tables, allocate_resources, release_allocation, get_active_allocation, gpu_taken,
  refusal, reserve, gpu_allocated, has_instance,
}
use ocelot.VirtualServer.Store.Allocations.Conservation.{IsValid, Conserved}
use ocelot.VirtualServer.Store.Allocations.History.{Call, run, run-Conserved, allocates, releases}
use ocelot.VirtualServer.Store.Allocations.Grants.{allocate_resources_granted}
use ocelot.VirtualServer.Store.Allocations.Spent.{reallocate_refused}

abbrev row : NodeRow
row = record {
  avail_ram_mib = pos 100;
  avail_cpu_threads = pos 8;
  gpus = (0, false) ∷ [];
  updated_at = 1;
}

abbrev fleet : Tables
fleet = record { nodes = ("n", row) ∷ []; instances = "i" ∷ []; allocations = [] }

fleet-IsValid : IsValid fleet
unfolding lookup
fleet-IsValid = record { node_exists = λ i a e. ground (arith, e) }

run-Conserved_example :
    IsValid (run (allocates "i" "n" (pos 2) (pos 40) none 2 ∷ releases "i" 3 ∷ []) fleet)
    × Conserved fleet (run (allocates "i" "n" (pos 2) (pos 40) none 2 ∷ releases "i" 3 ∷ []) fleet)
run-Conserved_example =
    run-Conserved (allocates "i" "n" (pos 2) (pos 40) none 2 ∷ releases "i" 3 ∷ []) fleet
      fleet-IsValid

abbrev granted : Tables
granted = (allocate_resources "i" "n" (pos 2) (pos 40) (some 0) 2 fleet).0

allocate_resources_granted_example :
    (n : NodeRow) × (lookup "n" fleet.nodes ≡ some n)
    × (pos 40 ≤ℤ n.avail_ram_mib)
    × ((pos 2 ≤ℤ pos 0) ⊎ (pos 2 ≤ℤ n.avail_cpu_threads))
    × (gpu_taken (some 0) n.gpus ≡ false)
    × (lookup "i" fleet.allocations ≡ none)
    × (is_some (get_active_allocation "i" granted) ≡ true)
unfolding allocate_resources refusal reserve gpu_taken gpu_allocated has_instance lookup
allocate_resources_granted_example =
    allocate_resources_granted "i" "n" (pos 2) (pos 40) (some 0) 2 fleet refl

abbrev calls : List Call
calls = releases "i" 4 ∷ allocates "i" "n" (pos 3) (pos 3) none 5 ∷ []

reallocate_refused_example :
    (get_active_allocation "i" (run calls (release_allocation "i" 3 granted)) ≡ none)
    × (is_some
          (allocate_resources "i" "n"
            (pos 1)
            (pos 1)
            none
            6
            (run calls (release_allocation "i" 3 granted))).1
        ≡ true)
    × ((allocate_resources "i" "n"
          (pos 1)
          (pos 1)
          none
          6
          (run calls (release_allocation "i" 3 granted))).0
        ≡ run calls (release_allocation "i" 3 granted))
unfolding allocate_resources refusal reserve gpu_taken gpu_allocated has_instance lookup insert
    get_active_allocation
reallocate_refused_example =
    reallocate_refused "i" "n" (pos 1) (pos 1) none 3 6 _ calls granted refl
