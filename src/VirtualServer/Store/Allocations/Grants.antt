-- ===== src/VirtualServer/Store/Allocations/Grants.antt =====
-- When a reservation is granted, and when it is refused.
use ocelot.Prelude.{
  ℕ, ◌≡◌, refl, ◌⊎◌, inl, inr, true, false, ◌||◌, not, Option, none, some, String, arith, is_some,
  nat_eq, string_eq, Option-cases, Bool-cases,
}
use ocelot.Prelude.Int.{ℤ, pos, ◌≤ℤ◌}
use ocelot.Prelude.Map.{lookup, lookup-insert}
use text.Mathlib.TextEquality.{eq_iff}
use ocelot.VirtualServer.Store.Allocations.{
  gpu_taken, NodeRow, Tables, refusal, reserve, has_instance, allocate_resources,
  get_active_allocation,
}
use ocelot.VirtualServer.Store.Allocations.Conservation.{no_row}

refusal-none :
    (cpu ram : ℤ) (gpu : Option ℕ) (n : NodeRow)
    → refusal cpu ram gpu n ≡ none
    → (ram ≤ℤ n.avail_ram_mib)
      × ((cpu ≤ℤ pos 0) ⊎ (cpu ≤ℤ n.avail_cpu_threads))
      × (gpu_taken gpu n.gpus ≡ false)
unfolding refusal
refusal-none cpu ram gpu n h = ground arith

reserve_granted :
    (instance node : String) (cpu ram : ℤ) (gpu : Option ℕ) (now : ℕ) (n : NodeRow) (t : Tables)
    → (reserve instance node cpu ram gpu now n t).1 ≡ none
    → (lookup instance t.allocations ≡ none)
      × (lookup instance (reserve instance node cpu ram gpu now n t).0.allocations
          ≡ some (record {
            node_id = node;
            cpu_threads = cpu;
            ram_mib = ram;
            gpu_device_index = gpu;
            allocated_at = now;
            released_at = none;
          }))
unfolding reserve
reserve_granted instance node cpu ram gpu now n t h =
    elim (Bool-cases
      (is_some (lookup instance t.allocations) || not (has_instance instance t.instances))) [
        | inl bad ↦ cc (rw bad at h)
        | inr good ↦ (
          no_row (lookup instance t.allocations) (not (has_instance instance t.instances)) good,
          rw (good, lookup-insert instance instance, (eq_iff instance instance).1 refl),
        )
      ]

-- A reservation that is granted was covered: the node had the RAM, and the CPU if any was asked for,
-- its GPU was not taken, and the new allocation is the active one of the instance.
pub allocate_resources_granted :
    (instance node : String) (cpu ram : ℤ) (gpu : Option ℕ) (now : ℕ) (t : Tables)
    → (allocate_resources instance node cpu ram gpu now t).1 ≡ none
    → (n : NodeRow) × (lookup node t.nodes ≡ some n)
      × (ram ≤ℤ n.avail_ram_mib)
      × ((cpu ≤ℤ pos 0) ⊎ (cpu ≤ℤ n.avail_cpu_threads))
      × (gpu_taken gpu n.gpus ≡ false)
      × (lookup instance t.allocations ≡ none)
      × (is_some
            (get_active_allocation instance (allocate_resources instance node cpu ram gpu now t).0)
          ≡ true)
unfolding allocate_resources get_active_allocation
allocate_resources_granted instance node cpu ram gpu now t h =
    elim (Option-cases (lookup node t.nodes)) [
      | inl absent ↦ cc (rw (absent, allocate_resources) at h)
      | inr (n, e) ↦ elim (Option-cases (refusal cpu ram gpu n)) [
        | inr (x, refused) ↦ cc (rw (e, allocate_resources, refused) at h)
        | inl passed ↦
            let (enough, threads, gpu_free) = refusal-none cpu ram gpu n passed in
            let (fresh, stored) =
              reserve_granted instance node cpu ram gpu now n t
                (rw (e, allocate_resources, passed) at h) in
            (
              n,
              e,
              enough,
              threads,
              gpu_free,
              fresh,
              rw (e, allocate_resources, passed, get_active_allocation, stored),
            )
      ]
    ]
