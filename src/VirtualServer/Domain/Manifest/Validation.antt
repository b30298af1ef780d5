-- ===== src/VirtualServer/Domain/Manifest/Validation.antt =====
-- The manifests that pass: no error is reported exactly for the well-formed ones.
use ocelot.Prelude.{
  ℕ, ◌≤◌, ◌≡◌, ◌≢◌, ◌↔◌, ◌⊎◌, refl, Bool, true, false, not, Option, none, some, String, List, [],
  ◌∷◌, append-eq-nil, All, any, length, arith, ◌==◌, nat_eq, string_eq,
}
use ocelot.Prelude.Int.{pos, ◌≤ℤ◌, ltb_ℤ}
use ocelot.VirtualServer.Domain.Path.{validate_segment}
use ocelot.VirtualServer.Domain.Path.Segments.{IsSegment, validate_segment_iff}
use ocelot.VirtualServer.Domain.Manifest.{
  ArtifactType, ocelot_artifact, url_artifact, other_type, ArtifactReference, GpuRequest,
  ServiceManifest, ManifestError, unless, report, is_hex, is_info_hash, validate_artifact,
  gpu_errors, is_restart_policy, validate_manifest,
}

abbrev pub IsHex : ℕ → Type 0
IsHex c = ((b'0' ≤ c) × (c ≤ b'9')) ⊎ ((b'a' ≤ c) × (c ≤ b'f')) ⊎ ((b'A' ≤ c) × (c ≤ b'F'))

abbrev pub IsArtifact : ArtifactType → ArtifactReference → Type 0
IsArtifact ocelot_artifact a = (length a.info_hash ≡ 40) × All IsHex a.info_hash
IsArtifact url_artifact a = a.url ≢ ""
IsArtifact other_type a = ⊥

pub record IsWellFormed (m : ServiceManifest) : Type 0 where
  pub version : m.api_version ≡ "virtualserver/v1"
  pub kind : m.kind ≡ "Service"
  pub namespace : IsSegment m.namespace
  pub name : IsSegment m.name
  pub artifact : IsArtifact m.spec.artifact.artifact_type m.spec.artifact
  pub runtime : m.spec.runtime ≢ ""
  pub instances : pos 1 ≤ℤ m.spec.instances
  pub cpu : pos 0 ≤ℤ m.spec.resources.cpu_threads
  pub ram : pos 0 ≤ℤ m.spec.resources.ram_mib
  pub gpu :
      m.spec.resources.gpu.required ≡ true
      → (pos 1 ≤ℤ m.spec.resources.gpu.count) × (pos 0 ≤ℤ m.spec.resources.gpu.min_vram_mib)
  pub restart :
      (m.spec.restart_policy ≡ "")
      ⊎ (m.spec.restart_policy ≡ "always")
      ⊎ (m.spec.restart_policy ≡ "on-failure")
      ⊎ (m.spec.restart_policy ≡ "never")

unless_iff : (b : Bool) (e : ManifestError) → (unless b e ≡ []) ↔ (b ≡ true)
unless_iff true e = (λ h. refl, λ h. refl)
unless_iff false e = (λ h. cc, λ h. cc)

report_iff {ℓ} :
    {E : Type ℓ} (f : E → ManifestError) (o : Option E) → (report f o ≡ []) ↔ (o ≡ none)
report_iff f none = (λ h. refl, λ h. refl)
report_iff f (some e) = (λ h. cc, λ h. cc)

any-IsHex : (s : List ℕ) → (any (λ c. not (is_hex c)) s ≡ false) ↔ All IsHex s
unfolding any is_hex
any-IsHex [] = (λ h. tt, λ h. refl)
any-IsHex (c ∷ s) = ground (arith, any-IsHex s)

validate_artifact_iff :
    (t : ArtifactType) (a : ArtifactReference) → (validate_artifact t a ≡ none) ↔ IsArtifact t a
unfolding validate_artifact is_info_hash
validate_artifact_iff ocelot_artifact a = ground (arith, any-IsHex a.info_hash)
validate_artifact_iff url_artifact a = ground (arith, string_eq.equal_iff a.url "")
validate_artifact_iff other_type a = ground arith

gpu_errors_iff :
    (g : GpuRequest)
    → (gpu_errors g ≡ []) ↔ (g.required ≡ true → (pos 1 ≤ℤ g.count) × (pos 0 ≤ℤ g.min_vram_mib))
unfolding gpu_errors
gpu_errors_iff g = ground arith

restart_iff :
    (p : String)
    → (is_restart_policy p ≡ true)
      ↔ ((p ≡ "") ⊎ (p ≡ "always") ⊎ (p ≡ "on-failure") ⊎ (p ≡ "never"))
unfolding is_restart_policy
restart_iff p = ground (
  arith,
  string_eq.equal_iff p "",
  string_eq.equal_iff p "always",
  string_eq.equal_iff p "on-failure",
  string_eq.equal_iff p "never",
)

-- The parts of the report, and that all of them are empty.
abbrev IsSilent : ServiceManifest → Type 0
IsSilent m =
    (unless (m.api_version == "virtualserver/v1") ManifestError.bad_api_version ≡ [])
    × (unless (m.kind == "Service") ManifestError.bad_kind ≡ [])
    × (report ManifestError.bad_namespace (validate_segment m.namespace) ≡ [])
    × (report ManifestError.bad_name (validate_segment m.name) ≡ [])
    × (report ManifestError.bad_artifact
          (validate_artifact m.spec.artifact.artifact_type m.spec.artifact)
        ≡ [])
    × (unless (not (m.spec.runtime == "")) ManifestError.empty_runtime ≡ [])
    × (unless (not (ltb_ℤ m.spec.instances (pos 1))) ManifestError.few_instances ≡ [])
    × (unless (not (ltb_ℤ m.spec.resources.cpu_threads (pos 0))) ManifestError.negative_cpu ≡ [])
    × (unless (not (ltb_ℤ m.spec.resources.ram_mib (pos 0))) ManifestError.negative_ram ≡ [])
    × (gpu_errors m.spec.resources.gpu ≡ [])
    × (unless (is_restart_policy m.spec.restart_policy) ManifestError.bad_restart ≡ [])

silent : (m : ServiceManifest) → validate_manifest m ≡ [] → IsSilent m
unfolding validate_manifest
silent m h =
    let (a, r₁) = append-eq-nil _ _ h in
    let (b, r₂) = append-eq-nil _ _ r₁ in
    let (c, r₃) = append-eq-nil _ _ r₂ in
    let (d, r₄) = append-eq-nil _ _ r₃ in
    let (e, r₅) = append-eq-nil _ _ r₄ in
    let (f, r₆) = append-eq-nil _ _ r₅ in
    let (g, r₇) = append-eq-nil _ _ r₆ in
    let (i, r₈) = append-eq-nil _ _ r₇ in
    let (j, r₉) = append-eq-nil _ _ r₈ in
    let (k, l) = append-eq-nil _ _ r₉ in (a, b, c, d, e, f, g, i, j, k, l)

all_silent : (m : ServiceManifest) → IsSilent m → validate_manifest m ≡ []
unfolding validate_manifest
all_silent m (a, b, c, d, e, f, g, i, j, k, l) = rw (a, b, c, d, e, f, g, i, j, k, l)

-- A manifest passes `Validate` exactly when it is well-formed.
pub validate_manifest_iff : (m : ServiceManifest) → (validate_manifest m ≡ []) ↔ IsWellFormed m
validate_manifest_iff m = (
  λ h.
      let (a, b, c, d, e, f, g, i, j, k, l) = silent m h in
      record {
        version = (string_eq.equal_iff _ _).0 ((unless_iff _ _).0 a);
        kind = (string_eq.equal_iff _ _).0 ((unless_iff _ _).0 b);
        namespace = (validate_segment_iff _).0 ((report_iff _ _).0 c);
        name = (validate_segment_iff _).0 ((report_iff _ _).0 d);
        artifact = (validate_artifact_iff _ _).0 ((report_iff _ _).0 e);
        runtime = ground (arith, (unless_iff _ _).0 f, string_eq.equal_iff m.spec.runtime "");
        instances = ground (arith, (unless_iff _ _).0 g);
        cpu = ground (arith, (unless_iff _ _).0 i);
        ram = ground (arith, (unless_iff _ _).0 j);
        gpu = (gpu_errors_iff _).0 k;
        restart = (restart_iff _).0 ((unless_iff _ _).0 l);
      },
  λ v. all_silent m (
    (unless_iff _ _).1 ((string_eq.equal_iff _ _).1 v.version),
    (unless_iff _ _).1 ((string_eq.equal_iff _ _).1 v.kind),
    (report_iff _ _).1 ((validate_segment_iff _).1 v.namespace),
    (report_iff _ _).1 ((validate_segment_iff _).1 v.name),
    (report_iff _ _).1 ((validate_artifact_iff _ _).1 v.artifact),
    (unless_iff _ _).1 (ground (arith, v.runtime, string_eq.equal_iff m.spec.runtime "")),
    (unless_iff _ _).1 (ground (arith, v.instances)),
    (unless_iff _ _).1 (ground (arith, v.cpu)),
    (unless_iff _ _).1 (ground (arith, v.ram)),
    (gpu_errors_iff _).1 v.gpu,
    (unless_iff _ _).1 ((restart_iff _).1 v.restart),
  ),
)
