-- ===== src/VirtualServer/Domain/Manifest.antt =====
-- virtualserver/domain/service.go: the declaration of a service, and its validation. JSON is decoded by
-- the standard library into these records.
pub mod Validation
use ocelot.Prelude.{
  ℕ, Bool, true, false, ◌&&◌, ◌||◌, not, Option, none, some, String, List, [], ◌∷◌, ◌++◌, length,
  any, if◌then◌else◌, ltb, leb, ◌==◌, nat_eq, string_eq,
}
use ocelot.Prelude.Int.{ℤ, pos, ltb_ℤ}
use ocelot.Prelude.Map.{Map}
use ocelot.VirtualServer.Domain.Path.{SegmentError, validate_segment}

-- `other_type` stands for the texts that are no constant of the file.
pub data ArtifactType : Type 0 where
  ocelot_artifact url_artifact other_type : ArtifactType

pub record ArtifactReference : Type 0 where
  pub artifact_type : ArtifactType
  pub info_hash : List ℕ
  pub url : String

pub record GpuRequest : Type 0 where
  pub required : Bool
  pub count : ℤ
  pub min_vram_mib : ℤ

pub record ResourceRequest : Type 0 where
  pub cpu_threads : ℤ
  pub ram_mib : ℤ
  pub gpu : GpuRequest

pub record PlacementPolicy : Type 0 where
  pub required_labels : Map String String
  pub preferred_nodes : List (List ℕ)
  pub excluded_nodes : List (List ℕ)
  pub required_arch : String
  pub preferred_location : String

pub record ServiceSpec : Type 0 where
  pub artifact : ArtifactReference
  pub runtime : String
  pub instances : ℤ
  pub resources : ResourceRequest
  pub placement : PlacementPolicy
  pub restart_policy : String

pub record ServiceManifest : Type 0 where
  pub api_version : String
  pub kind : String
  pub namespace : List ℕ
  pub name : List ℕ
  pub spec : ServiceSpec

pub data ArtifactError : Type 0 where
  bad_info_hash empty_url unsupported_type : ArtifactError

pub data ManifestError : Type 0 where
  bad_api_version bad_kind : ManifestError
  bad_namespace bad_name : SegmentError → ManifestError
  bad_artifact : ArtifactError → ManifestError
  empty_runtime few_instances negative_cpu negative_ram few_gpus negative_vram bad_restart :
      ManifestError

unfoldable pub is_hex : ℕ → Bool
is_hex c = (leb b'0' c && leb c b'9') || ((leb b'a' c && leb c b'f') || (leb b'A' c && leb c b'F'))

-- `infoHashRe`
unfoldable pub is_info_hash : List ℕ → Bool
unfolding is_hex
is_info_hash s = length s == 40 && not (any (λ c. not (is_hex c)) s)

unfoldable pub validate_artifact : ArtifactType → ArtifactReference → Option ArtifactError
unfolding is_info_hash
validate_artifact ocelot_artifact a = if is_info_hash a.info_hash then none else some bad_info_hash
validate_artifact url_artifact a = if a.url == "" then some empty_url else none
validate_artifact other_type a = some unsupported_type

abbrev pub unless : Bool → ManifestError → List ManifestError
unless true e = []
unless false e = e ∷ []

abbrev pub report {ℓ} : {E : Type ℓ} → (E → ManifestError) → Option E → List ManifestError
report f none = []
report f (some e) = f e ∷ []

unfoldable pub gpu_errors : GpuRequest → List ManifestError
gpu_errors g =
    if g.required
    then unless (not (ltb_ℤ g.count (pos 1))) few_gpus
      ++ unless (not (ltb_ℤ g.min_vram_mib (pos 0))) negative_vram
    else []

unfoldable pub is_restart_policy : String → Bool
is_restart_policy p = p == "" || (p == "always" || (p == "on-failure" || p == "never"))

-- All errors, in order; no error is the empty list.
unfoldable pub validate_manifest : ServiceManifest → List ManifestError
unfolding validate_artifact gpu_errors is_restart_policy validate_segment
validate_manifest m =
    let spec = m.spec in
    unless (m.api_version == "virtualserver/v1") bad_api_version
    ++ (unless (m.kind == "Service") bad_kind
        ++ (report bad_namespace (validate_segment m.namespace)
            ++ (report bad_name (validate_segment m.name)
                ++ (report bad_artifact
                      (validate_artifact spec.artifact.artifact_type spec.artifact)
                    ++ (unless (not (spec.runtime == "")) empty_runtime
                        ++ (unless (not (ltb_ℤ spec.instances (pos 1))) few_instances
                            ++ (unless (not (ltb_ℤ spec.resources.cpu_threads (pos 0))) negative_cpu
                                ++ (unless (not (ltb_ℤ spec.resources.ram_mib (pos 0))) negative_ram
                                    ++ (gpu_errors spec.resources.gpu
                                        ++ unless (is_restart_policy spec.restart_policy)
                                            bad_restart)))))))))
