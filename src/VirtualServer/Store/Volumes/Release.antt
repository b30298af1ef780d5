-- ===== src/VirtualServer/Store/Volumes/Release.antt =====
-- The states of the volumes under the operations of the store.
use ocelot.Prelude.{
  ℕ, ◌≡◌, refl, ap, ◌∙◌, ◌⊎◌, inl, inr, true, false, Option, none, some, String, arith,
  if◌then◌else◌, is_some, ◌==◌, nat_eq, string_eq, Option-cases, Bool-cases,
}
use ocelot.Prelude.Map.{lookup, lookup-insert}
use text.Mathlib.TextEquality.{eq_iff}
use ocelot.VirtualServer.Domain.Volume.{VolumeState, validate_volume_transition, allowed_volume}
use ocelot.VirtualServer.Store.Volumes.{
  Volume, Tables, StoreError, set_state, update_volume_state, start_volume_release,
  has_active_mounts, is_releasing,
}

unfoldable pub state_of : String → Tables → Option VolumeState
state_of id t = elim (lookup id t.volumes) [ none ↦ none | some v ↦ some v.state ]

pub set_state-state :
    (id other : String) (to : VolumeState) (now : ℕ) (v : Volume) (t : Tables)
    → state_of other (set_state id to now v t) ≡ (if id == other then some to else state_of other t)
unfolding set_state state_of
set_state-state id other to now v t = elim (Bool-cases (id == other)) [
  | inl hit ↦
      rw
        (
          hit,
          lookup-insert id other (record v { state = to; updated_at = now }) t.volumes,
          state_of,
        )
        (rw hit)
  | inr miss ↦
      ground (arith, lookup-insert id other (record v { state = to; updated_at = now }) t.volumes)
]

state_of-row :
    (id : String) (v : Volume) (t : Tables)
    → lookup id t.volumes ≡ some v
    → state_of id t ≡ some v.state
unfolding state_of
state_of-row id v t e = rw (e, state_of)

pub set_state-mounts :
    (id : String) (to : VolumeState) (now : ℕ) (v : Volume) (t : Tables)
    → (set_state id to now v t).mounts ≡ t.mounts
unfolding set_state
set_state-mounts id to now v t = refl

accepted :
    (from to : VolumeState)
    → validate_volume_transition from to ≡ none
    → allowed_volume from to ≡ true
unfolding validate_volume_transition
accepted from to h = ground arith

-- What a call may do to the volumes: to each, nothing or one transition of the table; and it
-- changes nothing when it fails.
pub record IsLegal (t : Tables) (r : Tables × Option StoreError) : Type 0 where
  pub stays_or_moves :
      (id : String)
      → (state_of id r.0 ≡ state_of id t)
        ⊎ ((from to : VolumeState) × (state_of id t ≡ some from)
            × (state_of id r.0 ≡ some to)
            × (allowed_volume from to ≡ true))
  pub fails_unchanged : (is_some r.1 ≡ true) → r.0 ≡ t

moved :
    (id : String) (to : VolumeState) (now : ℕ) (v : Volume) (t : Tables)
    → lookup id t.volumes ≡ some v
    → validate_volume_transition v.state to ≡ none
    → IsLegal t (set_state id to now v t, none)
moved id to now v t e ok = record {
  stays_or_moves = λ other. elim (Bool-cases (id == other)) [
    | inl hit ↦ inr (
      v.state,
      to,
      rw (← (eq_iff id other).0 hit) (state_of-row id v t e),
      rw (set_state-state, hit),
      accepted v.state to ok,
    )
    | inr miss ↦ inl (rw (set_state-state, miss))
  ];
  fails_unchanged = λ f. cc;
}

unmoved : (t : Tables) (e : Option StoreError) → IsLegal t (t, e)
unmoved t e = record { stays_or_moves = λ id. inl refl; fails_unchanged = λ f. refl }

pub update_volume_state-IsLegal :
    (id : String) (to : VolumeState) (now : ℕ) (t : Tables)
    → IsLegal t (update_volume_state id to now t)
unfolding update_volume_state
update_volume_state-IsLegal id to now t = elim (Option-cases (lookup id t.volumes)) [
  | inl absent ↦ rw (absent, update_volume_state) (unmoved t _)
  | inr (v, e) ↦ elim (Option-cases (validate_volume_transition v.state to)) [
    | inl ok ↦ rw (e, update_volume_state, ok) (moved id to now v t e ok)
    | inr (x, bad) ↦ rw (e, update_volume_state, bad) (unmoved t _)
  ]
]

-- The branches of `StartVolumeRelease`.
pub start_volume_release_cases {ℓ} :
    (P : Tables × Option StoreError → Type ℓ) (id : String) (now : ℕ) (t : Tables)
    → ((e : StoreError) → P (t, some e))
    → ((v : Volume) → lookup id t.volumes ≡ some v → is_releasing v.state ≡ true → P (t, none))
    → ((v : Volume)
        → lookup id t.volumes ≡ some v
        → validate_volume_transition v.state VolumeState.releasing ≡ none
        → has_active_mounts id t.mounts ≡ false
        → P (set_state id VolumeState.releasing now v t, none))
    → P (start_volume_release id now t)
unfolding start_volume_release
start_volume_release_cases P id now t fails already released =
    elim (Option-cases (lookup id t.volumes)) [
      | inl absent ↦ rw (absent, start_volume_release) (fails _)
      | inr (v, e) ↦ elim (Bool-cases (is_releasing v.state)) [
        | inl begun ↦ rw (e, start_volume_release, begun) (already v e begun)
        | inr fresh ↦
            elim (Option-cases (validate_volume_transition v.state VolumeState.releasing)) [
              | inr (x, bad) ↦ rw (e, start_volume_release, fresh, bad) (fails _)
              | inl ok ↦ elim (Bool-cases (has_active_mounts id t.mounts)) [
                | inl mounted ↦ rw (e, start_volume_release, fresh, ok, mounted) (fails _)
                | inr free ↦ rw (e, start_volume_release, fresh, ok, free) (released v e ok free)
              ]
            ]
      ]
    ]

pub start_volume_release-IsLegal :
    (id : String) (now : ℕ) (t : Tables) → IsLegal t (start_volume_release id now t)
start_volume_release-IsLegal id now t =
    start_volume_release_cases (IsLegal t) id now t (λ e. unmoved t (some e))
      (λ v e b. unmoved t none) (λ v e ok free. moved id VolumeState.releasing now v t e ok)

-- What a successful release has achieved.
abbrev pub IsReleased : String → Tables → Tables × Option StoreError → Type 0
IsReleased id t r =
    r.1 ≡ none
    → ((state_of id r.0 ≡ some VolumeState.releasing)
        ⊎ (state_of id r.0 ≡ some VolumeState.released))
      × (r.0.mounts ≡ t.mounts)
      × ((r.0 ≡ t) ⊎ (has_active_mounts id r.0.mounts ≡ false))

releasing_or_released :
    (s : VolumeState)
    → is_releasing s ≡ true
    → (s ≡ VolumeState.releasing) ⊎ (s ≡ VolumeState.released)
unfolding is_releasing
releasing_or_released s h = ground arith

-- A release that succeeds leaves the volume in `releasing` or `released`, touches no mount, and
-- either had nothing to do or was made while no unreleased mount held the volume.
pub start_volume_release-IsReleased :
    (id : String) (now : ℕ) (t : Tables) → IsReleased id t (start_volume_release id now t)
start_volume_release-IsReleased id now t =
    start_volume_release_cases (IsReleased id t) id now t (λ e h. cc)
      (λ v e b h. (begun v e b, refl, inl refl))
      (λ v e ok free h. (
        inl (rw (set_state-state, (eq_iff id id).1 refl)),
        set_state-mounts id _ now v t,
        inr (rw (set_state-mounts id VolumeState.releasing now v t) free),
      ))
  where
    begun :
        (v : Volume)
        → lookup id t.volumes ≡ some v
        → is_releasing v.state ≡ true
        → (state_of id t ≡ some VolumeState.releasing) ⊎ (state_of id t ≡ some VolumeState.released)
    begun v e b = elim (releasing_or_released v.state b) [
      | inl s ↦ inl (state_of-row id v t e ∙ ap some s)
      | inr s ↦ inr (state_of-row id v t e ∙ ap some s)
    ]
