-- ===== src/VirtualServer/Domain/Volume.antt =====
-- virtualserver/domain/volume.go: the lifecycle of a volume, and its manifest.
use ocelot.Prelude.{
  ◌≡◌, refl, ◌≢◌, Bool, true, false, ◌&&◌, not, Option, none, some, String, arith, if◌then◌else◌,
}
use ocelot.Prelude.Reach.{Reaches, here, next, Reaches-keeps}

-- `VolumeState` is a string: `other` stands for the strings that are no constant of the file.
pub data VolumeState : Type 0 where
  declared provisioning ready bound releasing released failed quota_exceeded : VolumeState
  other : String → VolumeState

pub data VolumeError : Type 0 where
  unknown_source : VolumeState → VolumeError
  invalid_transition : VolumeState → VolumeState → VolumeError

-- The states that `allowedVolumeTransitions` has a row for.
unfoldable pub is_source : VolumeState → Bool
is_source (other s) = false
is_source _ = true

unfoldable pub allowed_volume : VolumeState → VolumeState → Bool
allowed_volume declared provisioning = true
allowed_volume declared releasing = true
allowed_volume provisioning ready = true
allowed_volume provisioning failed = true
allowed_volume ready bound = true
allowed_volume ready releasing = true
allowed_volume bound ready = true
allowed_volume bound releasing = true
allowed_volume bound quota_exceeded = true
allowed_volume releasing released = true
allowed_volume releasing failed = true
allowed_volume failed declared = true
allowed_volume failed releasing = true
allowed_volume quota_exceeded bound = true
allowed_volume quota_exceeded releasing = true
allowed_volume _ _ = false

unfoldable pub is_terminal_volume_state : VolumeState → Bool
is_terminal_volume_state released = true
is_terminal_volume_state _ = false

unfoldable pub validate_volume_transition : VolumeState → VolumeState → Option VolumeError
unfolding is_source
validate_volume_transition from to =
    if is_source from
    then (if allowed_volume from to then none else some (invalid_transition from to))
    else some (unknown_source from)

-- Every volume of the table can be released.
pub released_reachable : (s : VolumeState) → is_source s ≡ true → Reaches allowed_volume s released
unfolding is_source allowed_volume
released_reachable declared h = next {t = releasing} (next here refl) refl
released_reachable provisioning h =
    next {t = releasing} (next {t = ready} (next here refl) refl) refl
released_reachable ready h = next {t = releasing} (next here refl) refl
released_reachable bound h = next {t = releasing} (next here refl) refl
released_reachable releasing h = next here refl
released_reachable released h = here
released_reachable failed h = next {t = releasing} (next here refl) refl
released_reachable quota_exceeded h = next {t = releasing} (next here refl) refl
released_reachable (other x) h = cc

abbrev IsFresh : VolumeState → Type 0
IsFresh declared = Unit
IsFresh provisioning = Unit
IsFresh releasing = Unit
IsFresh released = Unit
IsFresh failed = Unit
IsFresh _ = ⊥

abbrev is_ready : VolumeState → Bool
is_ready ready = true
is_ready _ = false

-- The transitions that do not lead into `ready`.
pub allowed_past_ready : VolumeState → VolumeState → Bool
allowed_past_ready s t = allowed_volume s t && not (is_ready t)

allowed_past_ready-IsFresh :
    (s t : VolumeState) → allowed_past_ready s t ≡ true → IsFresh s → IsFresh t
unfolding allowed_past_ready allowed_volume
allowed_past_ready-IsFresh s t e h = ground arith

-- A volume is never bound, nor over its quota, before its provisioning has succeeded.
pub bound_needs_ready :
    (s : VolumeState) → Reaches allowed_past_ready declared s → (s ≢ bound) × (s ≢ quota_exceeded)
bound_needs_ready s r =
    let fresh = Reaches-keeps allowed_past_ready IsFresh allowed_past_ready-IsFresh r tt in
    (λ e. ground arith, λ e. ground arith)
