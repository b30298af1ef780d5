-- ===== src/VirtualServer/Store/Allocations.antt =====
-- virtualserver/store/allocation_store.go: reservations of CPU, RAM and GPUs of a node.
-- `UNIQUE(instance_id)` makes the instance the key of the table of allocations.
pub mod Conservation
pub mod Grants
pub mod Spent
pub mod History
use ocelot.Prelude.{
  ℕ, Bool, true, false, ◌&&◌, Option, none, some, List, [], ◌∷◌, String, if◌then◌else◌, is_some,
  ◌==◌, nat_eq, string_eq, ◌||◌, not,
}
use ocelot.Prelude.Int.{ℤ, pos, ◌+ℤ◌, ◌-ℤ◌, ltb_ℤ}
use ocelot.Prelude.Map.{Map, lookup, insert}

-- The columns of a node that an allocation touches.
pub record NodeRow : Type 0 where
  pub avail_ram_mib : ℤ
  pub avail_cpu_threads : ℤ
  pub gpus : List (ℕ × Bool)  -- device_index, allocated
  pub updated_at : ℕ

pub record Allocation : Type 0 where
  pub node_id : String
  pub cpu_threads : ℤ
  pub ram_mib : ℤ
  pub gpu_device_index : Option ℕ
  pub allocated_at : ℕ
  pub released_at : Option ℕ

pub record Tables : Type 0 where
  pub nodes : Map String NodeRow
  pub instances : List String
  pub allocations : Map String Allocation

pub data AllocationError : Type 0 where
  not_found ram_conflict cpu_conflict gpu_conflict insert_failed : AllocationError

-- `SELECT allocated … WHERE device_index=?`: no row leaves the variable at 0.
unfoldable pub gpu_allocated : ℕ → List (ℕ × Bool) → Bool
gpu_allocated i [] = false
gpu_allocated i ((j, taken) ∷ gpus) = if j == i then taken else gpu_allocated i gpus

-- `UPDATE … SET allocated=? WHERE device_index=?`.
unfoldable pub mark_gpu : ℕ → Bool → List (ℕ × Bool) → List (ℕ × Bool)
mark_gpu i flag [] = []
mark_gpu i flag ((j, taken) ∷ gpus) = (j, if j == i then flag else taken) ∷ mark_gpu i flag gpus

unfoldable pub mark_requested : Option ℕ → Bool → List (ℕ × Bool) → List (ℕ × Bool)
mark_requested none flag gpus = gpus
mark_requested (some i) flag gpus = mark_gpu i flag gpus

unfoldable pub gpu_taken : Option ℕ → List (ℕ × Bool) → Bool
gpu_taken none gpus = false
gpu_taken (some i) gpus = gpu_allocated i gpus

unfoldable pub has_instance : String → List String → Bool
has_instance i [] = false
has_instance i (j ∷ js) = if j == i then true else has_instance i js

-- The checks inside the transaction, in the order of the code.
unfoldable pub refusal : ℤ → ℤ → Option ℕ → NodeRow → Option AllocationError
unfolding gpu_taken
refusal cpu ram gpu n =
    if ltb_ℤ n.avail_ram_mib ram
    then some ram_conflict
    else if ltb_ℤ (pos 0) cpu && ltb_ℤ n.avail_cpu_threads cpu
    then some cpu_conflict
    else if gpu_taken gpu n.gpus
    then some gpu_conflict
    else none

-- The three writes of the transaction; the insert fails on a second row for the instance, and on
-- an instance that is not in its table.
unfoldable pub reserve :
    String → String → ℤ → ℤ → Option ℕ → ℕ → NodeRow → Tables → Tables × Option AllocationError
reserve instance node cpu ram gpu now n t =
    if is_some (lookup instance t.allocations) || not (has_instance instance t.instances)
    then (t, some insert_failed)
    else (
      record t {
        nodes =
            insert node
              (record {
                avail_ram_mib = n.avail_ram_mib -ℤ ram;
                avail_cpu_threads = n.avail_cpu_threads -ℤ cpu;
                gpus = mark_requested gpu true n.gpus;
                updated_at = now;
              })
              t.nodes;
        allocations =
            insert instance
              (record {
                node_id = node;
                cpu_threads = cpu;
                ram_mib = ram;
                gpu_device_index = gpu;
                allocated_at = now;
                released_at = none;
              })
              t.allocations;
      },
      none,
    )

unfoldable pub allocate_resources :
    String → String → ℤ → ℤ → Option ℕ → ℕ → Tables → Tables × Option AllocationError
unfolding refusal reserve
allocate_resources instance node cpu ram gpu now t = elim (lookup node t.nodes) [
  | none ↦ (t, some not_found)
  | some n ↦ elim (refusal cpu ram gpu n) [
    | some e ↦ (t, some e)
    | none ↦ reserve instance node cpu ram gpu now n t
  ]
]

-- `UPDATE virtualserver_nodes SET avail_…=avail_…+?`, and the GPU's flag.
unfoldable pub give_back : Allocation → ℕ → Map String NodeRow → Map String NodeRow
give_back a now nodes = elim (lookup a.node_id nodes) [
  | none ↦ nodes
  | some n ↦
      insert a.node_id
        (record {
          avail_ram_mib = n.avail_ram_mib +ℤ a.ram_mib;
          avail_cpu_threads = n.avail_cpu_threads +ℤ a.cpu_threads;
          gpus = mark_requested a.gpu_device_index false n.gpus;
          updated_at = now;
        })
        nodes
]

-- `WHERE instance_id=? AND released_at IS NULL`.
unfoldable pub get_active_allocation : String → Tables → Option Allocation
get_active_allocation instance t = elim (lookup instance t.allocations) [
  | none ↦ none
  | some a ↦ if is_some a.released_at then none else some a
]

-- Releasing twice, or what was never allocated, changes nothing and succeeds.
unfoldable pub release_allocation : String → ℕ → Tables → Tables
unfolding get_active_allocation give_back
release_allocation instance now t = elim (get_active_allocation instance t) [
  | none ↦ t
  | some a ↦ record t {
    nodes = give_back a now t.nodes;
    allocations = insert instance (record a { released_at = some now }) t.allocations;
  }
]
