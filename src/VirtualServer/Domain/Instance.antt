-- ===== src/VirtualServer/Domain/Instance.antt =====
-- virtualserver/domain/instance.go: the lifecycle of a service instance.
use ocelot.Prelude.{
  String-discrete, ◌≡◌, refl, ◌≢◌, ◌↔◌, Bool, true, false, ◌&&◌, not, Option, none, some, String,
  arith, if◌then◌else◌,
}
use ocelot.Prelude.Reach.{Reaches, here, next, Reaches-keeps}

-- `InstanceState` is a string: `other` stands for the strings that are no constant of the file.
pub data InstanceState : Type 0 where
  declared scheduled provisioning starting running degraded : InstanceState
  stopping failed terminated : InstanceState
  other : String → InstanceState

pub data InstanceError : Type 0 where
  unknown_source : InstanceState → InstanceError
  invalid_transition : InstanceState → InstanceState → InstanceError

-- The rows of `allowedInstanceTransitions`.
unfoldable pub is_source : InstanceState → Bool
is_source (other s) = false
is_source _ = true

unfoldable pub allowed_instance : InstanceState → InstanceState → Bool
allowed_instance declared scheduled = true
allowed_instance declared failed = true
allowed_instance scheduled provisioning = true
allowed_instance scheduled failed = true
allowed_instance provisioning starting = true
allowed_instance provisioning failed = true
allowed_instance starting running = true
allowed_instance starting failed = true
allowed_instance running degraded = true
allowed_instance running stopping = true
allowed_instance degraded running = true
allowed_instance degraded stopping = true
allowed_instance degraded failed = true
allowed_instance stopping terminated = true
allowed_instance failed declared = true
allowed_instance failed terminated = true
allowed_instance _ _ = false

unfoldable pub validate_instance_transition : InstanceState → InstanceState → Option InstanceError
unfolding is_source
validate_instance_transition from to =
    if is_source from
    then (if allowed_instance from to then none else some (invalid_transition from to))
    else some (unknown_source from)

unfoldable pub is_terminal_instance_state : InstanceState → Bool
is_terminal_instance_state terminated = true
is_terminal_instance_state _ = false

-- Of the states of the table, the terminal one is exactly the one that no transition leaves.
pub is_terminal_instance_state_iff :
    (s : InstanceState)
    → is_source s ≡ true
    → (is_terminal_instance_state s ≡ true) ↔ ((t : InstanceState) → allowed_instance s t ≡ false)
unfolding is_terminal_instance_state is_source allowed_instance
is_terminal_instance_state_iff terminated h = (λ e t. refl, λ f. refl)
is_terminal_instance_state_iff declared h = (λ e. cc, λ f. cc (f failed))
is_terminal_instance_state_iff scheduled h = (λ e. cc, λ f. cc (f failed))
is_terminal_instance_state_iff provisioning h = (λ e. cc, λ f. cc (f failed))
is_terminal_instance_state_iff starting h = (λ e. cc, λ f. cc (f failed))
is_terminal_instance_state_iff running h = (λ e. cc, λ f. cc (f stopping))
is_terminal_instance_state_iff degraded h = (λ e. cc, λ f. cc (f failed))
is_terminal_instance_state_iff stopping h = (λ e. cc, λ f. cc (f terminated))
is_terminal_instance_state_iff failed h = (λ e. cc, λ f. cc (f terminated))
is_terminal_instance_state_iff (other x) h = cc

abbrev is_starting : InstanceState → Bool
is_starting starting = true
is_starting _ = false

-- The transitions that do not lead into `starting`.
pub allowed_past_starting : InstanceState → InstanceState → Bool
allowed_past_starting s t = allowed_instance s t && not (is_starting t)

abbrev IsBeforeStart : InstanceState → Type 0
IsBeforeStart declared = Unit
IsBeforeStart scheduled = Unit
IsBeforeStart provisioning = Unit
IsBeforeStart failed = Unit
IsBeforeStart terminated = Unit
IsBeforeStart _ = ⊥

allowed_past_starting-IsBeforeStart :
    (s t : InstanceState) → allowed_past_starting s t ≡ true → IsBeforeStart s → IsBeforeStart t
unfolding allowed_past_starting allowed_instance
allowed_past_starting-IsBeforeStart s t e h = ground arith

-- A declared instance never runs without having been started, however often it fails and retries.
pub running_needs_starting :
    (s : InstanceState) → Reaches allowed_past_starting declared s → s ≢ running
running_needs_starting s r e = ground (
  arith,
  Reaches-keeps allowed_past_starting IsBeforeStart allowed_past_starting-IsBeforeStart r tt,
)

-- Every instance of the table can be brought to its end.
pub terminated_reachable :
    (s : InstanceState) → is_source s ≡ true → Reaches allowed_instance s terminated
unfolding is_source allowed_instance
terminated_reachable declared h = next {t = failed} (next here refl) refl
terminated_reachable scheduled h = next {t = failed} (next here refl) refl
terminated_reachable provisioning h = next {t = failed} (next here refl) refl
terminated_reachable starting h = next {t = failed} (next here refl) refl
terminated_reachable running h = next {t = stopping} (next here refl) refl
terminated_reachable degraded h = next {t = failed} (next here refl) refl
terminated_reachable stopping h = next here refl
terminated_reachable failed h = next here refl
terminated_reachable terminated h = here
terminated_reachable (other x) h = cc

pub InstanceState-discrete : Discrete InstanceState
InstanceState-discrete = hlevel String-discrete
