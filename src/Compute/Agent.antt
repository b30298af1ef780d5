-- ===== src/Compute/Agent.antt =====
-- compute/agent/reconcile.go, health.go and the bookkeeping of executor.go: the workloads of a node.
-- The operating system answers from outside. A process that is stopped has ended, and its watcher has
-- run, when the next step is taken; without that, a stop would only be on its way.
pub mod Convergence
pub mod Buffer
use ocelot.Prelude.{
  ℕ, Bool, true, false, not, ◌&&◌, Option, none, some, String, List, [], ◌∷◌, ◌++◌, length,
  if◌then◌else◌, leb, ◌==◌, nat_eq, string_eq, is_some,
}
use ocelot.Prelude.Map.{Map, lookup, insert, delete}

pub data Action : Type 0 where
  run stop checkpoint : Action
  other_action : String → Action

pub data EventKind : Type 0 where
  started checkpointed failed completed oom_killed timed_out stopped : EventKind

-- The fields of `HealthEvent` that the agent's decisions set; its time and texts are left out.
pub record HealthEvent : Type 0 where
  pub workload_id : String
  pub kind : EventKind

pub record HealthBuffer : Type 0 where
  pub events : List HealthEvent
  pub overflow : Bool

abbrev pub max_buffered_events : ℕ
max_buffered_events = 100

abbrev pub tail {ℓ} : {A : Type ℓ} → List A → List A
tail [] = []
tail (x ∷ xs) = xs

unfoldable pub push : HealthEvent → HealthBuffer → HealthBuffer
push e b =
    if leb max_buffered_events (length b.events)
    then record { events = tail b.events ++ e ∷ []; overflow = true }
    else record b { events = b.events ++ e ∷ [] }

unfoldable pub push_all : List HealthEvent → HealthBuffer → HealthBuffer
unfolding push
push_all [] b = b
push_all (e ∷ es) b = push_all es (push e b)

abbrev pub no_events : HealthBuffer
no_events = record { events = []; overflow = false }

-- The events and the flag that are taken, and the buffer that is left.
unfoldable pub drain : HealthBuffer → HealthBuffer × HealthBuffer
drain b = if length b.events == 0 then (no_events, b) else (b, no_events)

-- `posted` is whether the control plane took the request, given what it holds; `others` are the events
-- that the watchers of the processes push during the request, in order. (Those that come in between
-- the pushes that follow are left out.)
unfoldable pub report :
    (HealthBuffer → Bool) → List HealthEvent → HealthBuffer × HealthBuffer → HealthBuffer
unfolding push_all
report posted others (taken, left) =
    let during = push_all others left in
    if length taken.events == 0
    then left
    else if posted taken
    then during
    else push_all taken.events during

unfoldable pub flush_health : (HealthBuffer → Bool) → List HealthEvent → HealthBuffer → HealthBuffer
unfolding drain report
flush_health posted others b = report posted others (drain b)

pub record VolumeMount : Type 0 where
  pub volume_id : String

pub record VolumeSpec : Type 0 where
  pub volume_id : String
  pub driver : String
  pub source_path : String

-- A workload with the fields of its manifest that the agent reads.
pub record Workload : Type 0 where
  pub id : String
  pub action : Action
  pub entrypoint : String
  pub volumes : List VolumeMount

pub record DesiredState : Type 0 where
  pub workloads : List Workload
  pub volumes : List VolumeSpec

-- The answers of the operating system: whether a path is there, and whether the directory, the log and
-- the process of a workload can be made.
pub record Os : Type 0 where
  pub exists : String → Bool
  pub launches : Workload → Bool

pub record Agent : Type 0 where
  pub running : Map String (Unit {0})
  pub health : HealthBuffer

-- `specMap[id]`, of which the last entry counts.
unfoldable pub spec_of : String → List VolumeSpec → Option VolumeSpec
spec_of id [] = none
spec_of id (v ∷ vs) = elim (spec_of id vs) [
  | some later ↦ some later
  | none ↦ if v.volume_id == id then some v else none
]

unfoldable pub mounts_one : Os → Option VolumeSpec → Bool
mounts_one os none = false
mounts_one os (some v) =
    if v.driver == "local"
    then not (v.source_path == "") && os.exists v.source_path
    else v.driver == "artifact"

unfoldable pub mount_volumes : Os → List VolumeMount → List VolumeSpec → Bool
unfolding spec_of mounts_one
mount_volumes os [] specs = true
mount_volumes os (m ∷ ms) specs =
    let rest = mount_volumes os ms specs in
    if mounts_one os (spec_of m.volume_id specs) then rest else false

abbrev pub is_run : Action → Bool
is_run run = true
is_run _ = false

abbrev pub is_stop : Action → Bool
is_stop stop = true
is_stop _ = false

-- `desiredRun`
unfoldable pub desired_run : List Workload → Map String Workload → Map String Workload
desired_run [] m = m
desired_run (w ∷ ws) m = desired_run ws (if is_run w.action then insert w.id w m else m)

abbrev pub event : String → EventKind → HealthEvent
event id kind = record { workload_id = id; kind = kind }

-- `Stop`; a workload that does not run is left alone.
unfoldable pub stop_one : String → Agent → Agent
stop_one id a = record a { running = delete id a.running }

unfoldable pub stop_unwanted : Map String Workload → Map String (Unit {0}) → Agent → Agent
unfolding stop_one push
stop_unwanted wanted [] a = a
stop_unwanted wanted ((id, u) ∷ ids) a = stop_unwanted wanted ids (
    if is_some (lookup id wanted)
    then a
    else record (stop_one id a) { health = push (event id stopped) a.health })

unfoldable pub stop_explicitly : List Workload → Map String (Unit {0}) → Agent → Agent
unfolding stop_one
stop_explicitly [] were a = a
stop_explicitly (w ∷ ws) were a =
    stop_explicitly ws were
      (if is_stop w.action && is_some (lookup w.id were) then stop_one w.id a else a)

-- Whether `mountVolumes` and `Start` succeed for a workload that does not run.
unfoldable pub can_start : Os → List VolumeSpec → Workload → Bool
unfolding mount_volumes
can_start os specs w =
    mount_volumes os w.volumes specs && (not (w.entrypoint == "") && os.launches w)

unfoldable pub start_one : Os → List VolumeSpec → String → Workload → Agent → Agent
unfolding can_start push
start_one os specs id w a =
    if can_start os specs w
    then record { running = insert id tt a.running; health = push (event id started) a.health }
    else record a { health = push (event id failed) a.health }

-- Those that ran when the reconciliation began are passed over.
unfoldable pub start_missing :
    Os → List VolumeSpec → Map String Workload → Map String (Unit {0}) → Agent → Agent
unfolding start_one
start_missing os specs [] were a = a
start_missing os specs ((id, w) ∷ ws) were a =
    start_missing os specs ws were
      (if is_some (lookup id were) then a else start_one os specs id w a)

unfoldable pub reconcile : Os → DesiredState → Agent → Agent
unfolding desired_run stop_unwanted stop_explicitly start_missing
reconcile os d a =
    let wanted = desired_run d.workloads [] in
    let b = stop_unwanted wanted a.running a in
    let c = stop_explicitly d.workloads a.running b in start_missing os d.volumes wanted a.running c
