-- ===== src/Tests/Reconciler.antt =====
-- The reconciler at a store with one instance, one volume and one mount.
use ocelot.Prelude.{
  ℕ, ◌≤◌, ◌<◌, ◌≡◌, ◌≢◌, ◌⊎◌, refl, Bool, true, false, Option, none, some, is_some, String, List,
  [], ◌∷◌, if◌then◌else◌, ◌==◌, arith, string_eq, nat_eq,
}
use ocelot.Prelude.Int.{pos, ◌≤ℤ◌, ◌<ℤ◌}
use ocelot.Prelude.Map.{lookup}
use ocelot.Tests.Placement.{spec, node, by_length}
use ocelot.VirtualServer.Domain.Instance.{InstanceState, is_terminal_instance_state}
use ocelot.VirtualServer.Domain.Mount.{VolumeMountState}
use ocelot.VirtualServer.Domain.Volume.{VolumeState}
use ocelot.VirtualServer.Reconciler.{Service, Driver, Outside, Store}
use ocelot.VirtualServer.Reconciler.Counts.{num_of, active_of, reconcile_count}
use ocelot.VirtualServer.Reconciler.Counts.Missing.{reconcile_count_lem}
use ocelot.VirtualServer.Reconciler.Passes.{
  served_by, stop_instance, inspect_instance, handle_failed_instance, place, not_allocated,
  first_gpu,
}
use ocelot.VirtualServer.Reconciler.Placing.{place_lem}
use ocelot.VirtualServer.Reconciler.Restarts.{IsGivenUp, handle_failed_instance_lem}
use ocelot.VirtualServer.Reconciler.Stopping.{stop_instance_lem, inspect_instance_exited}
use ocelot.VirtualServer.Reconciler.Teardown.{IsCleared}
use ocelot.VirtualServer.Store.Allocations.{
  AllocationError, allocate_resources, get_active_allocation,
}
use ocelot.VirtualServer.Store.Allocations
use ocelot.VirtualServer.Store.Instances.{Instance}
use ocelot.VirtualServer.Store.Volumes.{Volume}

abbrev service : Service
service = record {
  namespace = "media";
  spec = spec;
  maximum_attempts = pos 3;
  mounts = [];
  desired_count = pos 2;
}

abbrev driver : Driver
driver = record {
  is_local = true;
  mounts = λ id. true;
  creates = λ id. true;
  deletes = λ id. true;
  used_mib = λ id. some (pos 12);
}

abbrev out : Outside
out = record {
  services = (7, service) ∷ [];
  has_adapter = λ runtime. true;
  provisions = λ id. true;
  starts = λ id. true;
  is_running = λ id. false;
  is_healthy = λ id. true;
  is_recovered = λ id. false;
  class_of = λ id. "ssd";
  capacity_mib = λ id. pos 10;
  driver = λ class. some driver;
}

abbrev instance_in : InstanceState → Instance
instance_in state = record {
  service_id = 7;
  node_id = "n";
  vs_path = "vs://media/web/0";
  state = state;
  retry_count = 1;
  updated_at = 100;
}

abbrev volume : Volume
volume = record {
  namespace = "media";
  name = "data";
  state = VolumeState.bound;
  bound_node_id = "n";
  failure_reason = "";
  created_at = 1;
  updated_at = 1;
}

abbrev store_in : InstanceState → Store
store_in state = record {
  instances = ("i", instance_in state) ∷ [];
  resources = record { nodes = []; instances = "i" ∷ []; allocations = [] };
  volumes = record {
    volumes = ("v", volume) ∷ [];
    instances = "i" ∷ [];
    mounts =
        (
          1,
          record {
            volume_id = "v";
            instance_id = "i";
            target_path = "/data";
            read_only = false;
            state = VolumeMountState.active;
            mounted_at = some 90;
            unmounted_at = none;
          },
        )
        ∷ [];
    next_mount_id = 2;
  };
  handles = "v" ∷ [];
}

abbrev now : ℕ
now = 200_000_000_000

stop_instance_lem_example :
    (lookup "i"
        (stop_instance out now "i"
          (instance_in InstanceState.stopping)
          (store_in InstanceState.stopping)).instances
      ≡ some (record (instance_in InstanceState.terminated) { updated_at = 200 }))
    × IsCleared "i" (
        stop_instance out now "i"
          (instance_in InstanceState.stopping)
          (store_in InstanceState.stopping))
unfolding lookup served_by
stop_instance_lem_example =
    stop_instance_lem out now "i" (instance_in InstanceState.stopping) service
      (store_in InstanceState.stopping) refl refl refl

inspect_instance_exited_example :
    ((inspect_instance out now "i"
        (instance_in InstanceState.running)
        (store_in InstanceState.running)).instances
      ≡ ("i", instance_in InstanceState.running) ∷ [])
    × IsCleared "i" (
        inspect_instance out now "i"
          (instance_in InstanceState.running)
          (store_in InstanceState.running))
unfolding lookup served_by
inspect_instance_exited_example =
    inspect_instance_exited out now "i" (instance_in InstanceState.running) service
      (store_in InstanceState.running) refl refl refl refl

abbrev failed_once : Instance
failed_once = instance_in InstanceState.failed

handle_failed_instance_lem_example :
    (IsGivenUp service failed_once
      × (lookup "i"
            (handle_failed_instance out now "i" failed_once
              (store_in InstanceState.failed)).instances
          ≡ some (record (instance_in InstanceState.terminated) { updated_at = 200 }))
      × ((handle_failed_instance out now "i" failed_once (store_in InstanceState.failed)).resources
          ≡ (store_in InstanceState.failed).resources)
      × ((handle_failed_instance out now "i" failed_once (store_in InstanceState.failed)).volumes
          ≡ (store_in InstanceState.failed).volumes))
    ⊎ ((¬ IsGivenUp service failed_once)
        × (100_000_000_000 < 4_000_000_000)
        × (handle_failed_instance out now "i" failed_once (store_in InstanceState.failed)
            ≡ store_in InstanceState.failed))
    ⊎ ((¬ IsGivenUp service failed_once)
        × (4_000_000_000 ≤ 100_000_000_000)
        × (lookup "i"
              (handle_failed_instance out now "i" failed_once
                (store_in InstanceState.failed)).instances
            ≡ some
                (record (instance_in InstanceState.declared) { retry_count = 2; updated_at = 200 }))
        × IsCleared "i"
            (handle_failed_instance out now "i" failed_once (store_in InstanceState.failed)))
unfolding lookup
handle_failed_instance_lem_example =
    handle_failed_instance_lem out now "i" failed_once service (store_in InstanceState.failed) refl
      refl refl

-- The only id that the nodes of the tests have, as the store writes it.
abbrev text : List ℕ → String
text id = "n"

abbrev declared : Store
declared = store_in InstanceState.declared

abbrev granted : Allocations.Tables × Option AllocationError
granted =
    allocate_resources "i" "n" (pos 2) (pos 512) (first_gpu spec (node 1)) 200 declared.resources

place_lem_example :
    (lookup "i" (place by_length text service (node 1) now "i" declared).0.instances
      ≡ some (record (instance_in InstanceState.scheduled) { updated_at = 200 }))
    × (((granted.1 ≡ none)
          × ((place by_length text service (node 1) now "i" declared).1 ≡ none)
          × ((place by_length text service (node 1) now "i" declared).0.resources ≡ granted.0)
          × (is_some (
                get_active_allocation "i"
                  (place by_length text service (node 1) now "i" declared).0.resources)
              ≡ true))
        ⊎ ((e : AllocationError) × (granted.1 ≡ some e)
            × ((place by_length text service (node 1) now "i" declared).1 ≡ some (not_allocated e))
            × ((place by_length text service (node 1) now "i" declared).0.resources
                ≡ declared.resources)
            × (get_active_allocation "i" declared.resources ≡ none
                → get_active_allocation "i"
                    (place by_length text service (node 1) now "i" declared).0.resources
                  ≡ none)))
unfolding lookup
place_lem_example =
    place_lem by_length text service (node 1) now "i" (instance_in InstanceState.declared)
      (store_in InstanceState.declared) refl refl

-- The ids of the slots 1 and 2, and no others.
abbrev ids : ℕ → ℕ → String
ids _ slot = if slot == 1 then "j" else "k"

unused :
    (b : Bool) → lookup (if b then "j" else "k") (store_in InstanceState.running).instances ≡ none
unfolding lookup
unused true = refl
unused false = refl

differ : (j k : ℕ) → 1 ≤ j → j < k → k < 3 → ids 7 j ≢ ids 7 k
differ j k h l m =
    let first : (j == 1) ≡ true = ground (arith, h, l, m) in
    let second : (k == 1) ≡ false = ground (arith, h, l, m) in
    rw (first, second) (λ e. cc ((string_eq.equal_iff "j" "k").1 e))

reconcile_count_lem_example :
    (((pos 2 ≤ℤ pos 1)
        × (active_of 7
              (reconcile_count ids ids now 7 service (store_in InstanceState.running)).instances
            ≡ 1))
      ⊎ ((pos 1 <ℤ pos 2)
          × (pos (
                active_of 7
                  (reconcile_count ids ids now 7 service
                    (store_in InstanceState.running)).instances)
              ≡ pos 2)))
    × (active_of 8
          (reconcile_count ids ids now 7 service (store_in InstanceState.running)).instances
        ≡ 0)
unfolding num_of active_of is_terminal_instance_state
reconcile_count_lem_example =
    reconcile_count_lem ids ids now 7 8 service (store_in InstanceState.running)
      (λ j h l. unused (j == 1), differ) (omega arith) (omega arith)
