-- ===== src/Tests/Agent.antt =====
-- The agent of a compute node with two workloads.
use ocelot.Prelude.{◌≡◌, ◌<◌, length, true, false, [], ◌∷◌, string_eq}
use ocelot.Prelude.Map.{lookup}
use ocelot.Compute.Agent.{
  Workload, DesiredState, Os, Agent, HealthBuffer, run, stop, event, started, failed, no_events,
  desired_run, reconcile, push_all, flush_health,
}
use ocelot.Compute.Agent.Buffer.{latest, push_all-latest, flush_health_lem}
use ocelot.Compute.Agent.Convergence.{runs, startable, runs-reconcile}

abbrev web : Workload
web = record { id = "web"; action = run; entrypoint = "/bin/web"; volumes = [] }

abbrev desired : DesiredState
desired = record { workloads = web ∷ record web { id = "db"; action = stop } ∷ []; volumes = [] }

abbrev os : Os
os = record { exists = λ path. true; launches = λ w. true }

abbrev agent : Agent
agent = record { running = ("db", tt) ∷ []; health = no_events }

runs-reconcile_example :
    runs "web" (reconcile os desired agent)
    ≡ startable os [] (lookup "web" (desired_run desired.workloads []))
unfolding lookup
runs-reconcile_example = runs-reconcile os desired agent "web"

push_all-latest_example :
    ((push_all (event "web" failed ∷ event "web" started ∷ []) no_events).events
      ≡ latest (event "web" failed ∷ event "web" started ∷ []))
    × ((push_all (event "web" failed ∷ event "web" started ∷ []) no_events).overflow ≡ false)
push_all-latest_example = push_all-latest (event "web" failed ∷ event "web" started ∷ [])

abbrev overflown : HealthBuffer
overflown = record { events = event "web" failed ∷ []; overflow = true }

flush_health_lem_example :
    (length overflown.events ≡ 0
      → flush_health (λ b. false) (event "db" started ∷ []) overflown ≡ overflown)
    × (0 < length overflown.events
        → ((flush_health (λ b. false) (event "db" started ∷ []) overflown).events
            ≡ latest (event "db" started ∷ event "web" failed ∷ []))
          × ((flush_health (λ b. false) (event "db" started ∷ []) overflown).overflow ≡ false))
flush_health_lem_example = flush_health_lem (λ b. false) (event "db" started ∷ []) overflown
