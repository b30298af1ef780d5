-- ===== src/VirtualServer/Scheduler/Choice.antt =====
-- The node that is selected.
use mathlib.Core.Path.{subst}
use ocelot.Prelude.{
  ℕ, ◌≡◌, ◌↔◌, ◌⊎◌, inl, inr, refl, true, false, List, [], ◌∷◌, All, All-map, Any, at_first,
  at_other, Any-split, arith, nat_eq, Bool-cases,
}
use ocelot.VirtualServer.Domain.Manifest.{ServiceSpec}
use ocelot.VirtualServer.Scheduler.{
  Node, Scores, Placement, no_eligible_node, selected, bytes_ltb, before, insert_stably,
  sort_stably, is_candidate, candidates, best_of, schedule,
}
use ocelot.VirtualServer.Scheduler.Constraints.{IsEligible, hard_filter_iff}

bytes_ltb_asym : (xs ys : List ℕ) → bytes_ltb xs ys ≡ true → bytes_ltb ys xs ≡ false
unfolding bytes_ltb
bytes_ltb_asym [] [] h = refl
bytes_ltb_asym [] (y ∷ ys) h = refl
bytes_ltb_asym (x ∷ xs) [] h = cc
bytes_ltb_asym (x ∷ xs) (y ∷ ys) h = ground (arith, bytes_ltb_asym xs ys)

bytes_ltb_trans :
    (xs ys zs : List ℕ)
    → bytes_ltb xs ys ≡ false
    → bytes_ltb ys zs ≡ false
    → bytes_ltb xs zs ≡ false
unfolding bytes_ltb
bytes_ltb_trans [] [] [] h k = refl
bytes_ltb_trans [] [] (z ∷ zs) h k = cc
bytes_ltb_trans [] (y ∷ ys) zs h k = cc
bytes_ltb_trans (x ∷ xs) ys [] h k = refl
bytes_ltb_trans (x ∷ xs) [] (z ∷ zs) h k = cc
bytes_ltb_trans (x ∷ xs) (y ∷ ys) (z ∷ zs) h k = ground (arith, bytes_ltb_trans xs ys zs)

module _ (scores : Scores) (spec : ServiceSpec) where
  open scores use {Score, score, higher, higher_asym, higher_trans}

  before_asym : (m n : Node) → before scores spec m n ≡ true → before scores spec n m ≡ false
  unfolding before
  before_asym m n h = ground (
    arith,
    higher_asym (score m spec) (score n spec),
    higher_asym (score n spec) (score m spec),
    bytes_ltb_asym m.name n.name,
  )

  before_trans :
      (l m n : Node)
      → before scores spec l m ≡ false
      → before scores spec m n ≡ false
      → before scores spec l n ≡ false
  unfolding before
  before_trans l m n h k =
      let a = score l spec in
      let b = score m spec in
      let c = score n spec in
      ground (
        arith,
        higher_trans a b c,
        higher_trans b c a,
        higher_trans c a b,
        higher_trans a c b,
        higher_trans c b a,
        higher_trans b a c,
        higher_asym a b,
        higher_asym b c,
        higher_asym a c,
        bytes_ltb_trans l.name m.name n.name,
      )

  -- The least of the nodes, as the order has it.
  abbrev IsFirst : Node → List Node → Type 0
  IsFirst n ns = Any (λ m. m ≡ n) ns × All (λ m. before scores spec m n ≡ false) ns

  before_self : (n : Node) → before scores spec n n ≡ false
  before_self n = elim (Bool-cases (before scores spec n n)) [
    | inl e ↦ before_asym n n e
    | inr e ↦ e
  ]

  sort_stably-IsFirst :
      (n : Node) (ns : List Node)
      → (f : Node) × (t : List Node) × (sort_stably scores spec (n ∷ ns) ≡ f ∷ t)
        × IsFirst f (n ∷ ns)
  unfolding sort_stably insert_stably
  sort_stably-IsFirst n [] = (n, [], refl, (at_first refl, (before_self n, tt)))
  sort_stably-IsFirst n (m ∷ ms) =
      let (f, t, sorted, (mem, least)) = sort_stably-IsFirst m ms in
      elim (Bool-cases (before scores spec f n)) [
        | inl e ↦ (
          f,
          insert_stably scores spec n t,
          rw (sorted, insert_stably, e),
          (at_other mem, (before_asym f n e, least)),
        )
        | inr e ↦ (
          n,
          f ∷ t,
          rw (sorted, insert_stably, e),
          (
            at_first refl,
            (
              before_self n,
              All-map _ (λ k. before scores spec k n ≡ false) (m ∷ ms)
                  (λ k h. before_trans k f n h e) least,
            ),
          ),
        )
      ]

  candidate_iff : (n : Node) → (is_candidate scores spec n ≡ true) ↔ IsEligible n spec
  unfolding is_candidate
  candidate_iff n = ground (arith, hard_filter_iff n spec)

  -- No other node that is eligible has a higher score, nor as high a one and a smaller name.
  abbrev pub NoneBetter : Node → List Node → Type 0
  NoneBetter n = All (λ m.
      IsEligible m spec
      → (higher (score m spec) (score n spec) ≡ false)
        × (higher (score n spec) (score m spec) ≡ false → bytes_ltb m.name n.name ≡ false))

  candidates_lem :
      (P : Node → Type 0) (nodes : List Node)
      → All P (candidates scores spec nodes)
      → All (λ m. IsEligible m spec → P m) nodes
  unfolding candidates
  candidates_lem P [] h = tt
  candidates_lem P (n ∷ ns) h = elim (Bool-cases (is_candidate scores spec n)) [
    | inl e ↦ let (p, rest) = rw (e, candidates) at h in (λ _. p, candidates_lem P ns rest)
    | inr e ↦ (
      λ v. absurd (ground (arith, candidate_iff n)),
      candidates_lem P ns (rw (e, candidates) at h),
    )
  ]

  candidate_of :
      (n : Node) (nodes : List Node)
      → Any (λ m. m ≡ n) (candidates scores spec nodes)
      → Any (λ m. m ≡ n) nodes × IsEligible n spec
  unfolding candidates
  candidate_of n [] h = elim h [ ]
  candidate_of n (m ∷ ms) h = elim (Bool-cases (is_candidate scores spec m)) [
    | inr e ↦ let (mem, v) = candidate_of n ms (rw (e, candidates) at h) in (at_other mem, v)
    | inl e ↦ elim (Any-split _ (rw (e, candidates) at h)) [
      | inl same ↦ (at_first same, subst (λ k. IsEligible k spec) same ((candidate_iff m).0 e))
      | inr later ↦ let (mem, v) = candidate_of n ms later in (at_other mem, v)
    ]
  ]

  abbrev IsBest : List Node → Placement → Type 0
  IsBest nodes p =
      ((n : Node) × (p ≡ selected n)
        × Any (λ m. m ≡ n) nodes
        × IsEligible n spec
        × NoneBetter n nodes)
      ⊎ ((p ≡ no_eligible_node) × All (λ m. ¬ IsEligible m spec) nodes)

  not_before :
      (m n : Node)
      → before scores spec m n ≡ false
      → (higher (score m spec) (score n spec) ≡ false)
        × (higher (score n spec) (score m spec) ≡ false → bytes_ltb m.name n.name ≡ false)
  unfolding before
  not_before m n h = ground arith

  best_of-IsBest :
      (nodes cs : List Node)
      → candidates scores spec nodes ≡ cs
      → IsBest nodes (best_of scores spec (sort_stably scores spec cs))
  unfolding best_of sort_stably
  best_of-IsBest nodes [] e =
      let none_left : All (λ m. ⊥) (candidates scores spec nodes) = rw e tt in
      inr (refl, candidates_lem (λ m. ⊥) nodes none_left)
  best_of-IsBest nodes (c ∷ cs) e =
      let (f, t, sorted, (mem, least)) = sort_stably-IsFirst c cs in
      let (mem', v) = candidate_of f nodes (rw e mem) in
      let all : All (λ m. before scores spec m f ≡ false) (candidates scores spec nodes) =
        rw e least in
      inl (
        f,
        rw (sorted, best_of),
        mem',
        v,
        All-map _ _ nodes (λ m h w. not_before m f (h w))
            (candidates_lem (λ m. before scores spec m f ≡ false) nodes all),
      )

  -- Of the nodes of a service, one is selected that is eligible and that no other eligible node
  -- betters, by its score and then by its name; or there is none, and then no node is eligible.
  pub schedule-IsBest :
      (nodes : List Node)
      → ((n : Node) × ((schedule scores spec nodes).0 ≡ selected n)
          × Any (λ m. m ≡ n) nodes
          × IsEligible n spec
          × NoneBetter n nodes)
        ⊎ (((schedule scores spec nodes).0 ≡ no_eligible_node)
            × All (λ m. ¬ IsEligible m spec) nodes)
  unfolding schedule
  schedule-IsBest nodes = best_of-IsBest nodes (candidates scores spec nodes) refl
