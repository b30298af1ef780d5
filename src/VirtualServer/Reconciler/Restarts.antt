-- ===== src/VirtualServer/Reconciler/Restarts.antt =====
-- The instances that have failed: when they are given up, and when they are retried.
use ocelot.Prelude.{
  ℕ, zero, suc, ◌+◌, ◌*◌, ◌^◌, ◌≤◌, ◌<◌, ◌≡◌, ◌≢◌, ◌⊎◌, inl, inr, refl, Bool, true, false, ◌&&◌,
  some, String, if◌then◌else◌, ltb, nat_eq, string_eq, arith, Bool-cases,
}
use ocelot.Prelude.Int.{pos, ◌<ℤ◌, ◌≤ℤ◌, ltb_ℤ, leb_ℤ}
use ocelot.Prelude.Map.{lookup, lookup-insert_self}
use ocelot.VirtualServer.Domain.Instance.{
  InstanceState, validate_instance_transition, is_source, allowed_instance,
}
use ocelot.VirtualServer.Reconciler.{Service, Outside, Store, seconds, set_state, release}
use ocelot.VirtualServer.Reconciler.Mounts.{teardown_mounts}
use ocelot.VirtualServer.Reconciler.Passes.{
  handle_failed_instance, backoff, since, retry_base_delay, restarts,
}
use ocelot.VirtualServer.Reconciler.Stopping.{set_state-allowed}
use ocelot.VirtualServer.Reconciler.Teardown.{IsCleared, cleared}
use ocelot.VirtualServer.Store.Instances.{Instance, Table, increment_retry_count}

-- The service does not restart it, or it has used up its attempts, of which 0 are no limit.
abbrev pub IsGivenUp : Service → Instance → Type 0
IsGivenUp svc i =
    ((svc.spec.restart_policy ≢ "on-failure") × (svc.spec.restart_policy ≢ "always"))
    ⊎ ((pos 0 <ℤ svc.maximum_attempts) × (svc.maximum_attempts ≤ℤ pos i.retry_count))

-- Two seconds, doubled with each retry, up to six times.
abbrev pub delay : ℕ → ℕ
delay retries = 2_000_000_000 * 2 ^ (if ltb retries 6 then retries else 6)

backoff_lem : (retries : ℕ) → backoff 6 retries 2_000_000_000 ≡ delay retries
unfolding backoff
backoff_lem zero = refl
backoff_lem (suc zero) = refl
backoff_lem (suc (suc zero)) = refl
backoff_lem (suc (suc (suc zero))) = refl
backoff_lem (suc (suc (suc (suc zero)))) = refl
backoff_lem (suc (suc (suc (suc (suc zero))))) = refl
backoff_lem (suc (suc (suc (suc (suc (suc n)))))) = ground arith

abbrev is_spent : Service → Instance → Bool
is_spent svc i =
    ltb_ℤ (pos 0) svc.maximum_attempts && leb_ℤ svc.maximum_attempts (pos i.retry_count)

restarts_not :
    (policy : String) → restarts policy ≡ false → (policy ≢ "on-failure") × (policy ≢ "always")
restarts_not policy h =
    ground (arith, h, string_eq.equal_iff policy "on-failure", string_eq.equal_iff policy "always")

not-IsGivenUp :
    (svc : Service) (i : Instance)
    → restarts svc.spec.restart_policy ≡ true
    → is_spent svc i ≡ false
    → ¬ IsGivenUp svc i
not-IsGivenUp svc i h k = ground (
  arith,
  h,
  k,
  string_eq.equal_iff svc.spec.restart_policy "on-failure",
  string_eq.equal_iff svc.spec.restart_policy "always",
)

increment_retry_count-lookup :
    (id : String) (now : ℕ) (i : Instance) (t : Table)
    → lookup id t ≡ some i
    → lookup id (increment_retry_count id now t)
      ≡ some (record i {
        retry_count = i.retry_count + 1;
        state = InstanceState.declared;
        updated_at = now;
      })
unfolding increment_retry_count
increment_retry_count-lookup id now i t found =
    rw (increment_retry_count, found)
      (lookup-insert_self id
        (record i {
          retry_count = i.retry_count + 1;
          state = InstanceState.declared;
          updated_at = now;
        })
        t)

-- An instance that has failed is terminated when it is given up, but its reservation and its mounts
-- are kept; else, before its delay is over, the pass changes nothing, and after it the instance is
-- declared again with one more retry, its reservation and its mounts released.
pub handle_failed_instance_lem :
    (out : Outside) (now : ℕ) (id : String) (i : Instance) (svc : Service) (s : Store)
    → lookup id s.instances ≡ some i
    → i.state ≡ InstanceState.failed
    → lookup i.service_id out.services ≡ some svc
    → let u = handle_failed_instance out now id i s in
      (IsGivenUp svc i
        × (lookup id u.instances
            ≡ some (record i { state = InstanceState.terminated; updated_at = seconds now }))
        × (u.resources ≡ s.resources)
        × (u.volumes ≡ s.volumes))
      ⊎ ((¬ IsGivenUp svc i) × (since now i.updated_at < delay i.retry_count) × (u ≡ s))
      ⊎ ((¬ IsGivenUp svc i)
          × (delay i.retry_count ≤ since now i.updated_at)
          × (lookup id u.instances
              ≡ some (record i {
                retry_count = i.retry_count + 1;
                state = InstanceState.declared;
                updated_at = seconds now;
              }))
          × IsCleared id u)
unfolding handle_failed_instance set_state release teardown_mounts validate_instance_transition
    is_source allowed_instance
handle_failed_instance_lem out now id i svc s found failed served =
    let ends = set_state-allowed id InstanceState.terminated now i s found (rw failed refl) in
    elim (Bool-cases (restarts svc.spec.restart_policy)) [
      | inr never ↦
          rw (handle_failed_instance, served, never)
            (inl (inl (restarts_not svc.spec.restart_policy never), ends, refl, refl))
      | inl again ↦ elim (Bool-cases (is_spent svc i)) [
        | inl spent ↦
            rw (handle_failed_instance, served, again, spent)
              (inl (inr (ground (arith, spent)), ends, refl, refl))
        | inr left ↦
            let goes_on = not-IsGivenUp svc i again left in
            let b = backoff_lem i.retry_count in
            elim (Bool-cases
              (ltb (since now i.updated_at) (backoff 6 i.retry_count retry_base_delay))) [
                | inl early ↦
                    rw (handle_failed_instance, served, again, left, early)
                      (inr (inl (goes_on, ground (arith, early, b), refl)))
                | inr due ↦
                    let c = cleared id now s in
                    rw (handle_failed_instance, served, again, left, due)
                      (inr (
                        inr (
                          goes_on,
                          ground (arith, due, b),
                          increment_retry_count-lookup id (seconds now) i s.instances found,
                          record { unreserved = c.unreserved; unmounted = c.unmounted },
                        )))
              ]
      ]
    ]
