-- ===== src/VirtualServer/Domain/Node.antt =====
-- virtualserver/domain/node.go: the lifecycle of a compute node, and its GPUs.
use ocelot.Prelude.{
  String-discrete, ℕ, ◌≡◌, ◌≢◌, ◌⊎◌, Bool, true, false, ◌&&◌, not, Option, none, some, List, String,
  arith, if◌then◌else◌, select,
}
use ocelot.Prelude.Int.{ℤ, leb_ℤ}
use ocelot.Prelude.Reach.{Reaches, Reaches-keeps}

-- `NodeState` is a string: `other` stands for the strings that are no constant of the file.
pub data NodeState : Type 0 where
  discovered ready degraded draining maintenance quarantined retired : NodeState
  other : String → NodeState

pub data NodeError : Type 0 where
  unknown_source : NodeState → NodeError
  invalid_transition : NodeState → NodeState → NodeError

-- The states that `allowedNodeTransitions` has a row for.
pub is_source : NodeState → Bool
is_source (other s) = false
is_source _ = true

unfoldable pub allowed_node : NodeState → NodeState → Bool
allowed_node discovered ready = true
allowed_node discovered quarantined = true
allowed_node ready degraded = true
allowed_node ready draining = true
allowed_node ready maintenance = true
allowed_node ready quarantined = true
allowed_node degraded ready = true
allowed_node degraded draining = true
allowed_node degraded quarantined = true
allowed_node draining maintenance = true
allowed_node draining quarantined = true
allowed_node draining retired = true
allowed_node maintenance ready = true
allowed_node maintenance quarantined = true
allowed_node quarantined maintenance = true
allowed_node quarantined retired = true
allowed_node _ _ = false

unfoldable pub validate_node_transition : NodeState → NodeState → Option NodeError
unfolding is_source
validate_node_transition from to =
    if is_source from
    then (if allowed_node from to then none else some (invalid_transition from to))
    else some (unknown_source from)

unfoldable pub is_protected_node_state : NodeState → Bool
is_protected_node_state quarantined = true
is_protected_node_state retired = true
is_protected_node_state draining = true
is_protected_node_state maintenance = true
is_protected_node_state _ = false

pub record GpuDevice : Type 0 where
  pub index : ℕ
  pub vendor : String
  pub model : String
  pub vram_mib : ℤ
  pub allocated : Bool

is_eligible : ℤ → GpuDevice → Bool
is_eligible min_vram g = not g.allocated && leb_ℤ min_vram g.vram_mib

-- `Node.EligibleGPUs`.
unfoldable pub eligible_gpus : ℤ → List GpuDevice → List GpuDevice
unfolding is_eligible
eligible_gpus min_vram gpus = select (is_eligible min_vram) gpus

abbrev is_maintenance : NodeState → Bool
is_maintenance maintenance = true
is_maintenance _ = false

-- The transitions that do not lead into `maintenance`.
pub allowed_past_maintenance : NodeState → NodeState → Bool
allowed_past_maintenance s t = allowed_node s t && not (is_maintenance t)

abbrev IsHeld : NodeState → Type 0
IsHeld s = (is_protected_node_state s ≡ true) × (s ≢ maintenance)

allowed_past_maintenance-IsHeld :
    (s t : NodeState) → allowed_past_maintenance s t ≡ true → IsHeld s → IsHeld t
unfolding allowed_past_maintenance allowed_node is_protected_node_state
allowed_past_maintenance-IsHeld s t e h = (ground arith, λ p. ground arith)

-- A node that is draining, quarantined or retired becomes ready again by way of maintenance only.
pub ready_needs_maintenance :
    (s t : NodeState)
    → is_protected_node_state s ≡ true
    → s ≢ maintenance
    → Reaches allowed_past_maintenance s t
    → (t ≢ ready) × (t ≢ degraded) × (t ≢ discovered)
unfolding is_protected_node_state
ready_needs_maintenance s t h n r =
    let held =
      Reaches-keeps allowed_past_maintenance IsHeld allowed_past_maintenance-IsHeld r (h, n) in
    (λ e. ground arith, λ e. ground arith, λ e. ground arith)

-- Every node of the table that is not retired can be quarantined, in at most one step.
pub quarantine_available :
    (s : NodeState)
    → is_source s ≡ true
    → (s ≡ retired) ⊎ (s ≡ quarantined) ⊎ (validate_node_transition s quarantined ≡ none)
unfolding validate_node_transition allowed_node
quarantine_available s h = ground arith

pub NodeState-discrete : Discrete NodeState
NodeState-discrete = hlevel String-discrete
