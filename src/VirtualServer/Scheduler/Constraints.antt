-- ===== src/VirtualServer/Scheduler/Constraints.antt =====
-- The nodes that pass the hard constraints.
use ocelot.Prelude.{
  ℕ, ◌≡◌, ◌≢◌, ◌↔◌, ◌⊎◌, refl, ap, sym, ◌∙◌, true, String, List, [], ◌∷◌, length, append-eq-nil,
  All, arith, nat_eq, string_eq, list_eq,
}
use ocelot.Prelude.Int.{ℤ, pos, ◌≤ℤ◌}
use ocelot.Prelude.Map.{Map}
use ocelot.VirtualServer.Domain.Node.{NodeState, ready, GpuDevice, eligible_gpus}
use ocelot.VirtualServer.Domain.Manifest.{ServiceSpec, GpuRequest}
use ocelot.VirtualServer.Scheduler.{
  Node, label, arch_reasons, label_reasons, exclusion_reasons, cpu_reasons, ram_reasons,
  gpu_reasons, hard_filter,
}

abbrev HasLabels : Map String String → Map String String → Type 0
HasLabels labels = All (λ (k, v). label k labels ≡ v)

abbrev IsNotExcluded : Node → List (List ℕ) → Type 0
IsNotExcluded n = All (λ x. (n.name ≢ x) × (n.id ≢ x))

-- What a service demands of its node.
pub record IsEligible (n : Node) (spec : ServiceSpec) : Type 0 where
  pub state : n.state ≡ ready
  pub arch : (spec.placement.required_arch ≡ "") ⊎ (n.arch ≡ spec.placement.required_arch)
  pub labels : HasLabels n.labels spec.placement.required_labels
  pub not_excluded : IsNotExcluded n spec.placement.excluded_nodes
  pub cpu : (spec.resources.cpu_threads ≤ℤ pos 0) ⊎ (spec.resources.cpu_threads ≤ℤ n.cpu_threads)
  pub ram : (spec.resources.ram_mib ≤ℤ pos 0) ⊎ (spec.resources.ram_mib ≤ℤ n.avail_ram_mib)
  pub gpus :
      spec.resources.gpu.required ≡ true
      → spec.resources.gpu.count
        ≤ℤ pos (length (eligible_gpus spec.resources.gpu.min_vram_mib n.gpu_devices))

arch_iff :
    (required arch : String)
    → (arch_reasons required arch ≡ []) ↔ ((required ≡ "") ⊎ (arch ≡ required))
unfolding arch_reasons
arch_iff required arch =
    ground (arith, string_eq.equal_iff required "", string_eq.equal_iff arch required)

labels_iff :
    (labels required : Map String String)
    → (label_reasons labels required ≡ []) ↔ HasLabels labels required
unfolding label_reasons
labels_iff labels [] = (λ h. tt, λ h. refl)
labels_iff labels ((k, v) ∷ required) =
    ground (arith, string_eq.equal_iff (label k labels) v, labels_iff labels required)

excluded_iff : (n : Node) (xs : List (List ℕ)) → (exclusion_reasons n xs ≡ []) ↔ IsNotExcluded n xs
unfolding exclusion_reasons
excluded_iff n [] = (λ h. tt, λ h. refl)
excluded_iff n (x ∷ xs) = ground (
  arith,
  (list_eq {A = ℕ}).equal_iff n.name x,
  (list_eq {A = ℕ}).equal_iff n.id x,
  excluded_iff n xs,
)

cpu_iff : (has needed : ℤ) → (cpu_reasons has needed ≡ []) ↔ ((needed ≤ℤ pos 0) ⊎ (needed ≤ℤ has))
unfolding cpu_reasons
cpu_iff has needed = ground arith

ram_iff : (has needed : ℤ) → (ram_reasons has needed ≡ []) ↔ ((needed ≤ℤ pos 0) ⊎ (needed ≤ℤ has))
unfolding ram_reasons
ram_iff has needed = ground arith

gpu_iff :
    (gpus : List GpuDevice) (g : GpuRequest)
    → (gpu_reasons gpus g ≡ [])
      ↔ (g.required ≡ true → g.count ≤ℤ pos (length (eligible_gpus g.min_vram_mib gpus)))
unfolding gpu_reasons
gpu_iff gpus g = ground arith

ready_first :
    (s : NodeState) (n : Node) (spec : ServiceSpec) → hard_filter s n spec ≡ [] → s ≡ ready
unfolding hard_filter
ready_first ready n spec h = refl
ready_first _ n spec h = cc

eligible_passes :
    (n : Node) (spec : ServiceSpec) → IsEligible n spec → hard_filter ready n spec ≡ []
unfolding hard_filter
eligible_passes n spec v =
    let a = (arch_iff spec.placement.required_arch n.arch).1 v.arch in
    let b = (labels_iff n.labels spec.placement.required_labels).1 v.labels in
    let c = (excluded_iff n spec.placement.excluded_nodes).1 v.not_excluded in
    let d = (cpu_iff n.cpu_threads spec.resources.cpu_threads).1 v.cpu in
    let e = (ram_iff n.avail_ram_mib spec.resources.ram_mib).1 v.ram in
    let f = (gpu_iff n.gpu_devices spec.resources.gpu).1 v.gpus in rw (a, b, c, d, e, f)

-- A node passes the hard constraints of a service exactly when it is ready and has the architecture,
-- the labels, the threads, the free RAM and the free GPUs, each large enough, that are asked for, and
-- is not excluded.
pub hard_filter_iff :
    (n : Node) (spec : ServiceSpec) → (hard_filter n.state n spec ≡ []) ↔ IsEligible n spec
unfolding hard_filter
hard_filter_iff n spec = (
  λ h.
      let state = ready_first n.state n spec h in
      let passes : hard_filter ready n spec ≡ [] = ap (λ s. hard_filter s n spec) (sym state) ∙ h in
      let (a, r₁) = append-eq-nil _ _ passes in
      let (b, r₂) = append-eq-nil _ _ r₁ in
      let (c, r₃) = append-eq-nil _ _ r₂ in
      let (d, r₄) = append-eq-nil _ _ r₃ in
      let (e, f) = append-eq-nil _ _ r₄ in
      record {
        state = state;
        arch = (arch_iff spec.placement.required_arch n.arch).0 a;
        labels = (labels_iff n.labels spec.placement.required_labels).0 b;
        not_excluded = (excluded_iff n spec.placement.excluded_nodes).0 c;
        cpu = (cpu_iff n.cpu_threads spec.resources.cpu_threads).0 d;
        ram = (ram_iff n.avail_ram_mib spec.resources.ram_mib).0 e;
        gpus = (gpu_iff n.gpu_devices spec.resources.gpu).0 f;
      },
  λ v. ap (λ s. hard_filter s n spec) v.state ∙ eligible_passes n spec v,
)
