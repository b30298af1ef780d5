-- ===== src/Compute/Agent/Convergence.antt =====
-- Which workloads run after a reconciliation.
use ocelot.Prelude.{
  ◌≡◌, refl, ap, Bool, true, false, not, ◌&&◌, ◌||◌, Option, none, some, String, List, [], ◌∷◌,
  if◌then◌else◌, any, ◌==◌, string_eq, is_some, arith, Bool-cases, inl, inr,
}
use ocelot.Prelude.Map.{
  Map, lookup, insert, lookup-insert, lookup-delete, Distinct, none_left, one_more, Distinct-insert,
}
use ocelot.Compute.Agent.{
  push, event, stopped, Workload, VolumeSpec, DesiredState, Os, Agent, is_run, is_stop, desired_run,
  stop_one, stop_unwanted, stop_explicitly, can_start, start_one, start_missing, reconcile,
}

abbrev pub runs : String → Agent → Bool
runs id a = is_some (lookup id a.running)

lookup_same {ℓ} :
    {V : Type ℓ} (j id : String) (m : Map String V) → (j == id) ≡ true → lookup j m ≡ lookup id m
lookup_same j id m h = ap (λ k. lookup k m) ((string_eq.equal_iff j id).0 h)

runs-if :
    (b : Bool) (id : String) (a c : Agent)
    → runs id (if b then a else c) ≡ (if b then runs id a else runs id c)
runs-if true id a c = refl
runs-if false id a c = refl

runs-stop_one :
    (j id : String) (a : Agent) → runs id (stop_one j a) ≡ (if j == id then false else runs id a)
unfolding stop_one
runs-stop_one j id a = ground (arith, lookup-delete j id a.running)

runs-stop_unwanted :
    (id : String) (wanted : Map String Workload) (ids : Map String (Unit {0})) (a : Agent)
    → runs id (stop_unwanted wanted ids a)
      ≡ (runs id a && (is_some (lookup id wanted) || not (is_some (lookup id ids))))
unfolding stop_unwanted lookup
runs-stop_unwanted id wanted [] a = ground arith
runs-stop_unwanted id wanted ((j, u) ∷ ids) a =
    let stopped_one : Agent = record (stop_one j a) { health = push (event j stopped) a.health } in
    let v = if is_some (lookup j wanted) then a else stopped_one in
    ground (
      arith,
      runs-stop_unwanted id wanted ids v,
      runs-if (is_some (lookup j wanted)) id a stopped_one,
      runs-stop_one j id a,
      lookup_same j id wanted,
    )

-- A workload of the list that is to be stopped.
unfoldable pub is_stopped : String → List Workload → Bool
is_stopped id ws = any (λ w. is_stop w.action && w.id == id) ws

runs-stop_explicitly :
    (id : String) (ws : List Workload) (were : Map String (Unit {0})) (a : Agent)
    → runs id (stop_explicitly ws were a)
      ≡ (runs id a && not (is_some (lookup id were) && is_stopped id ws))
unfolding stop_explicitly is_stopped any
runs-stop_explicitly id [] were a = ground arith
runs-stop_explicitly id (w ∷ ws) were a =
    let asked = is_stop w.action && is_some (lookup w.id were) in
    let v = if asked then stop_one w.id a else a in
    ground (
      arith,
      runs-stop_explicitly id ws were v,
      runs-if asked id (stop_one w.id a) a,
      runs-stop_one w.id id a,
      lookup_same w.id id were,
    )

abbrev pub startable : Os → List VolumeSpec → Option Workload → Bool
startable os specs none = false
startable os specs (some w) = can_start os specs w

runs-start_one :
    (os : Os) (specs : List VolumeSpec) (j id : String) (w : Workload) (a : Agent)
    → runs id (start_one os specs j w a)
      ≡ (if j == id then runs id a || can_start os specs w else runs id a)
unfolding start_one
runs-start_one os specs j id w a = ground (arith, lookup-insert j id tt a.running)

runs-start_missing :
    (os : Os) (specs : List VolumeSpec) (id : String) (ws : Map String Workload)
    (were : Map String (Unit {0})) (a : Agent)
    → Distinct ws
    → runs id (start_missing os specs ws were a)
      ≡ (runs id a || (not (is_some (lookup id were)) && startable os specs (lookup id ws)))
unfolding start_missing lookup
runs-start_missing os specs id [] were a d = ground arith
runs-start_missing os specs id ((j, w) ∷ ws) were a (one_more new d) =
    let ran = is_some (lookup j were) in
    let v = if ran then a else start_one os specs j w a in
    ground (
      arith,
      runs-start_missing os specs id ws were v d,
      runs-if ran id a (start_one os specs j w a),
      runs-start_one os specs j id w a,
      lookup_same j id were,
      lookup_same j id ws,
      new,
    )

Distinct-desired_run :
    (ws : List Workload) (m : Map String Workload) → Distinct m → Distinct (desired_run ws m)
unfolding desired_run
Distinct-desired_run [] m d = d
Distinct-desired_run (w ∷ ws) m d = elim (Bool-cases (is_run w.action)) [
  | inl runs_it ↦
      rw runs_it (Distinct-desired_run ws (insert w.id w m) (Distinct-insert w.id w m d))
  | inr other ↦ rw other (Distinct-desired_run ws m d)
]

pub runs-reconcile :
    (os : Os) (d : DesiredState) (a : Agent) (id : String)
    → let wanted = desired_run d.workloads [] in
      runs id (reconcile os d a) ≡ (
        if runs id a
        then is_some (lookup id wanted) && not (is_stopped id d.workloads)
        else startable os d.volumes (lookup id wanted))
unfolding reconcile
runs-reconcile os d a id =
    let wanted = desired_run d.workloads [] in
    let b = stop_unwanted wanted a.running a in
    let c = stop_explicitly d.workloads a.running b in
    ground (
      arith,
      runs-start_missing os d.volumes id wanted a.running c
          (Distinct-desired_run d.workloads [] none_left),
      runs-stop_explicitly id d.workloads a.running b,
      runs-stop_unwanted id wanted a.running a,
    )
