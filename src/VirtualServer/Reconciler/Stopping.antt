-- ===== src/VirtualServer/Reconciler/Stopping.antt =====
-- The instances that stop, and those whose process has exited.
use ocelot.Prelude.{ℕ, ◌≡◌, refl, false, none, some, String, if_pos, string_eq}
use ocelot.Prelude.Map.{lookup, insert, lookup-insert_self}
use ocelot.VirtualServer.Domain.Instance.{
  InstanceState, InstanceError, invalid_transition, validate_instance_transition, is_source,
  allowed_instance,
}
use ocelot.VirtualServer.Reconciler.{Service, Outside, Store, seconds, set_state, release}
use ocelot.VirtualServer.Reconciler.Mounts.{teardown_mounts}
use ocelot.VirtualServer.Reconciler.Passes.{served_by, shut_down, stop_instance, inspect_instance}
use ocelot.VirtualServer.Reconciler.Teardown.{IsCleared, cleared}
use ocelot.VirtualServer.Store.Instances.{
  Instance, Table, transition, commit, update_instance_state,
}

pub commit_same :
    (id : String) (i : Instance) (write : Instance → Instance) (t : Table)
    → lookup id t ≡ some i
    → commit id i.state write t ≡ (insert id (write i) t, none)
unfolding commit
commit_same id i write t found = rw (found, commit, if_pos _ refl) refl

-- The state of a row moves as the table of transitions says, when nobody else writes.
pub set_state-allowed :
    (id : String) (to : InstanceState) (now : ℕ) (i : Instance) (s : Store)
    → lookup id s.instances ≡ some i
    → validate_instance_transition i.state to ≡ none
    → lookup id (set_state id to now s).instances
      ≡ some (record i { state = to; updated_at = seconds now })
unfolding set_state update_instance_state transition
set_state-allowed id to now i s found fine =
    rw
      (
        found,
        transition,
        fine,
        commit_same id i (λ j. record j { state = to; updated_at = seconds now }) s.instances found,
      )
      (lookup-insert_self id (record i { state = to; updated_at = seconds now }) s.instances)

pub set_state-refused :
    (id : String) (to : InstanceState) (now : ℕ) (i : Instance) (e : InstanceError) (s : Store)
    → lookup id s.instances ≡ some i
    → validate_instance_transition i.state to ≡ some e
    → (set_state id to now s).instances ≡ s.instances
unfolding set_state update_instance_state
set_state-refused id to now i e s found bad = rw (found, transition, bad) refl

pub set_state-IsCleared :
    (id : String) (to : InstanceState) (now : ℕ) (s : Store)
    → IsCleared id s
    → IsCleared id (set_state id to now s)
unfolding set_state
set_state-IsCleared id to now s c = record { unreserved = c.unreserved; unmounted = c.unmounted }

-- An instance that is stopping, whose service has an adapter, is terminated by the next pass, with
-- its resources released and none of its mounts held, whatever the adapter answers.
pub stop_instance_lem :
    (out : Outside) (now : ℕ) (id : String) (i : Instance) (svc : Service) (s : Store)
    → lookup id s.instances ≡ some i
    → i.state ≡ InstanceState.stopping
    → served_by out i ≡ some svc
    → let u = stop_instance out now id i s in
      (lookup id u.instances
        ≡ some (record i { state = InstanceState.terminated; updated_at = seconds now }))
      × IsCleared id u
unfolding stop_instance shut_down validate_instance_transition is_source allowed_instance release
    teardown_mounts
stop_instance_lem out now id i svc s found stopping served =
    let t = release id now (teardown_mounts id now s) in
    rw (stop_instance, served)
      (
        set_state-allowed id InstanceState.terminated now i t found (rw stopping refl),
        set_state-IsCleared id InstanceState.terminated now t (cleared id now s),
      )

-- A running instance whose process has exited stays a running one: the pass releases its resources
-- and its mounts, but running instances cannot become failed, and the error is dropped.
pub inspect_instance_exited :
    (out : Outside) (now : ℕ) (id : String) (i : Instance) (svc : Service) (s : Store)
    → lookup id s.instances ≡ some i
    → i.state ≡ InstanceState.running
    → served_by out i ≡ some svc
    → out.is_running id ≡ false
    → let u = inspect_instance out now id i s in (u.instances ≡ s.instances) × IsCleared id u
unfolding inspect_instance shut_down validate_instance_transition is_source allowed_instance release
    teardown_mounts
inspect_instance_exited out now id i svc s found running served exited =
    let t = release id now (teardown_mounts id now s) in
    rw (inspect_instance, served, exited)
      (
        set_state-refused id InstanceState.failed now i
            (invalid_transition InstanceState.running InstanceState.failed) t found
            (rw running refl),
        set_state-IsCleared id InstanceState.failed now t (cleared id now s),
      )
