-- ===== src/VirtualServer/Scheduler.antt =====
-- virtualserver/scheduler/scheduler.go: the hard constraints and the choice of the node. The score is
-- floating-point: its values and their orders are parameters, with the laws of numbers that are no NaN.
-- Names and ids are lists of bytes.
pub mod Constraints
pub mod Choice
use ocelot.Prelude.{
  ℕ, ◌≡◌, Bool, true, false, not, ◌&&◌, ◌||◌, Option, none, some, String, List, [], ◌∷◌, ◌++◌,
  length, any, if◌then◌else◌, ltb, ◌==◌, nat_eq, string_eq, list_eq,
}
use ocelot.Prelude.Int.{ℤ, pos, ltb_ℤ}
use ocelot.Prelude.Map.{Map, lookup, insert}
use ocelot.VirtualServer.Domain.Node.{NodeState, ready, GpuDevice, eligible_gpus}
use ocelot.VirtualServer.Domain.Manifest.{ServiceSpec, GpuRequest}

-- The fields of `domain.Node` that the constraints read.
pub record Node : Type 0 where
  pub id : List ℕ
  pub name : List ℕ
  pub arch : String
  pub cpu_threads : ℤ
  pub avail_ram_mib : ℤ
  pub gpu_devices : List GpuDevice
  pub labels : Map String String
  pub state : NodeState

pub data Reason : Type 0 where
  not_ready : NodeState → Reason
  wrong_arch label_missing : String → String → Reason
  excluded : Reason
  few_threads little_ram : ℤ → ℤ → Reason
  small_gpus : ℤ → Reason
  few_gpus : ℤ → ℕ → Reason
  no_gpus : Reason

-- `n.Labels[k]`, which is empty for a key that is not there.
unfoldable pub label : String → Map String String → String
label k m = elim (lookup k m) [ none ↦ "" | some v ↦ v ]

unfoldable pub arch_reasons : String → String → List Reason
arch_reasons required arch =
    if not (required == "") && not (arch == required) then wrong_arch arch required ∷ [] else []

unfoldable pub label_reasons : Map String String → Map String String → List Reason
unfolding label
label_reasons labels [] = []
label_reasons labels ((k, v) ∷ required) =
    let rest = label_reasons labels required in
    if label k labels == v then rest else label_missing k v ∷ rest

unfoldable pub exclusion_reasons : Node → List (List ℕ) → List Reason
exclusion_reasons n [] = []
exclusion_reasons n (x ∷ xs) =
    let rest = exclusion_reasons n xs in if n.name == x || n.id == x then excluded ∷ rest else rest

unfoldable pub cpu_reasons : ℤ → ℤ → List Reason
cpu_reasons has needed =
    if ltb_ℤ (pos 0) needed && ltb_ℤ has needed then few_threads has needed ∷ [] else []

unfoldable pub ram_reasons : ℤ → ℤ → List Reason
ram_reasons has needed =
    if ltb_ℤ (pos 0) needed && ltb_ℤ has needed then little_ram has needed ∷ [] else []

unfoldable pub gpu_reasons : List GpuDevice → GpuRequest → List Reason
unfolding eligible_gpus
gpu_reasons gpus g =
    let eligible = length (eligible_gpus g.min_vram_mib gpus) in
    if g.required && ltb_ℤ (pos eligible) g.count
    then (if ltb_ℤ (pos 0) g.min_vram_mib then small_gpus g.min_vram_mib ∷ [] else [])
      ++ (if length gpus == 0 then no_gpus ∷ [] else few_gpus g.count eligible ∷ [])
    else []

unfoldable pub hard_filter : NodeState → Node → ServiceSpec → List Reason
unfolding arch_reasons label_reasons exclusion_reasons cpu_reasons ram_reasons gpu_reasons
hard_filter ready n spec =
    arch_reasons spec.placement.required_arch n.arch
    ++ (label_reasons n.labels spec.placement.required_labels
        ++ (exclusion_reasons n spec.placement.excluded_nodes
            ++ (cpu_reasons n.cpu_threads spec.resources.cpu_threads
                ++ (ram_reasons n.avail_ram_mib spec.resources.ram_mib
                    ++ gpu_reasons n.gpu_devices spec.resources.gpu))))
hard_filter s n spec = not_ready s ∷ []

-- Go's `<` on strings, byte by byte.
unfoldable pub bytes_ltb : List ℕ → List ℕ → Bool
bytes_ltb [] [] = false
bytes_ltb [] (y ∷ ys) = true
bytes_ltb (x ∷ xs) [] = false
bytes_ltb (x ∷ xs) (y ∷ ys) =
    let rest = bytes_ltb xs ys in if ltb x y then true else if ltb y x then false else rest

-- What the placement takes of floating-point: scores, and `>` on them.
pub record Scores : Type 1 where
  pub Score : Type 0
  pub score : Node → ServiceSpec → Score
  pub higher : Score → Score → Bool
  pub higher_asym : (a b : Score) → higher a b ≡ true → higher b a ≡ false
  pub higher_trans : (a b c : Score) → higher a b ≡ false → higher b c ≡ false → higher a c ≡ false

pub data Placement : Type 0 where
  no_eligible_node : Placement
  selected : Node → Placement

module _ (scores : Scores) (spec : ServiceSpec) where
  open scores use {score, higher}

  -- The order of the candidates: by falling score, then by name. Scores that differ are those of which
  -- one is higher.
  unfoldable pub before : Node → Node → Bool
  unfolding bytes_ltb
  before m n =
      if higher (score m spec) (score n spec)
      then true
      else if higher (score n spec) (score m spec)
      then false
      else bytes_ltb m.name n.name

  -- `sort.SliceStable`, of the standard library.
  unfoldable pub insert_stably : Node → List Node → List Node
  unfolding before
  insert_stably m [] = m ∷ []
  insert_stably m (n ∷ ns) =
      let rest = insert_stably m ns in if before n m then n ∷ rest else m ∷ n ∷ ns

  unfoldable pub sort_stably : List Node → List Node
  unfolding insert_stably
  sort_stably [] = []
  sort_stably (n ∷ ns) = insert_stably n (sort_stably ns)

  unfoldable pub is_candidate : Node → Bool
  unfolding hard_filter
  is_candidate n = length (hard_filter n.state n spec) == 0

  -- The loop over the nodes: the candidates, and the reasons of the others.
  unfoldable pub candidates : List Node → List Node
  unfolding is_candidate
  candidates [] = []
  candidates (n ∷ ns) = let rest = candidates ns in if is_candidate n then n ∷ rest else rest

  -- A later node of the same name overwrites the entry.
  unfoldable pub rejections : List Node → Map (List ℕ) (List Reason) → Map (List ℕ) (List Reason)
  unfolding is_candidate hard_filter
  rejections [] m = m
  rejections (n ∷ ns) m =
      rejections ns (if is_candidate n then m else insert n.name (hard_filter n.state n spec) m)

  unfoldable pub best_of : List Node → Placement
  best_of [] = no_eligible_node
  best_of (n ∷ ns) = selected n

  unfoldable pub schedule : List Node → Placement × Map (List ℕ) (List Reason)
  unfolding sort_stably candidates rejections best_of
  schedule nodes = (best_of (sort_stably (candidates nodes)), rejections nodes [])
