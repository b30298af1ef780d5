-- ===== src/Tests/Placement.antt =====
-- Paths, manifests and the choice of a node.
use ocelot.Prelude.{
  ℕ, ◌≡◌, ◌↔◌, ◌⊎◌, refl, true, false, none, List, [], ◌∷◌, any, length, All, Any, ltb, arith,
}
use ocelot.Prelude.Int.{pos}
use ocelot.Prelude.Results.{ok}
use ocelot.VirtualServer.Domain.Manifest.{
  ServiceManifest, ServiceSpec, ocelot_artifact, validate_manifest,
}
use ocelot.VirtualServer.Domain.Manifest.Validation.{IsWellFormed, validate_manifest_iff}
use ocelot.VirtualServer.Domain.Node.{ready, degraded}
use ocelot.VirtualServer.Domain.Path.{VsPath, validate, parse, print}
use ocelot.VirtualServer.Domain.Path.RoundTrip.{parse_again}
use ocelot.VirtualServer.Scheduler.{Node, Scores, schedule, hard_filter, no_eligible_node, selected}
use ocelot.VirtualServer.Scheduler.Choice.{schedule-IsBest, NoneBetter}
use ocelot.VirtualServer.Scheduler.Constraints.{IsEligible, hard_filter_iff}

-- "vs://Media/web/0"
abbrev raw : List ℕ
raw =
    b'v' ∷ b's' ∷ b':' ∷ b'/' ∷ b'/' ∷ b'M' ∷ b'e' ∷ b'd' ∷ b'i' ∷ b'a' ∷ b'/' ∷ b'w' ∷ b'e' ∷ b'b'
    ∷ b'/' ∷ b'0' ∷ []

abbrev path : VsPath
path = record {
  namespace = b'm' ∷ b'e' ∷ b'd' ∷ b'i' ∷ b'a' ∷ [];
  service = b'w' ∷ b'e' ∷ b'b' ∷ [];
  instance_name = b'0' ∷ [];
}

parses : parse (λ c. c) raw ≡ ok path
unfolding parse any
parses = refl

parse_again_example : (validate path ≡ none) × (parse (λ c. c) (print path) ≡ ok path)
parse_again_example = parse_again (λ c. c) raw path parses

abbrev pub spec : ServiceSpec
spec = record {
  artifact = record { artifact_type = ocelot_artifact; info_hash = b'a' ∷ b'1' ∷ []; url = "" };
  runtime = "process";
  instances = pos 1;
  resources = record {
    cpu_threads = pos 2;
    ram_mib = pos 512;
    gpu = record { required = false; count = pos 0; min_vram_mib = pos 0 };
  };
  placement = record {
    required_labels = ("disk", "ssd") ∷ [];
    preferred_nodes = [];
    excluded_nodes = [];
    required_arch = "amd64";
    preferred_location = "";
  };
  restart_policy = "always";
}

abbrev manifest : ServiceManifest
manifest = record {
  api_version = "virtualserver/v1";
  kind = "Service";
  namespace = path.namespace;
  name = path.service;
  spec = spec;
}

validate_manifest_iff_example : (validate_manifest manifest ≡ []) ↔ IsWellFormed manifest
validate_manifest_iff_example = validate_manifest_iff manifest

abbrev pub node : ℕ → Node
node n = record {
  id = n ∷ [];
  name = n ∷ [];
  arch = "amd64";
  cpu_threads = pos 4;
  avail_ram_mib = pos 1024;
  gpu_devices = [];
  labels = ("disk", "ssd") ∷ [];
  state = ready;
}

hard_filter_iff_example :
    (hard_filter degraded (record (node 1) { state = degraded }) spec ≡ [])
    ↔ IsEligible (record (node 1) { state = degraded }) spec
hard_filter_iff_example = hard_filter_iff (record (node 1) { state = degraded }) spec

pub longer_asym : (a b : ℕ) → ltb b a ≡ true → ltb a b ≡ false
longer_asym a b h = ground arith

pub longer_trans : (a b c : ℕ) → ltb b a ≡ false → ltb c b ≡ false → ltb c a ≡ false
longer_trans a b c h k = ground arith

-- The length of the name as the score.
abbrev pub by_length : Scores
by_length = record {
  Score = ℕ;
  score = λ n s. length n.name;
  higher = λ a b. ltb b a;
  higher_asym = longer_asym;
  higher_trans = longer_trans;
}

schedule-IsBest_example :
    ((n : Node) × ((schedule by_length spec (node 2 ∷ node 1 ∷ [])).0 ≡ selected n)
      × Any (λ m. m ≡ n) (node 2 ∷ node 1 ∷ [])
      × IsEligible n spec
      × NoneBetter by_length spec n (node 2 ∷ node 1 ∷ []))
    ⊎ (((schedule by_length spec (node 2 ∷ node 1 ∷ [])).0 ≡ no_eligible_node)
        × All (λ m. ¬ IsEligible m spec) (node 2 ∷ node 1 ∷ []))
schedule-IsBest_example = schedule-IsBest by_length spec (node 2 ∷ node 1 ∷ [])
