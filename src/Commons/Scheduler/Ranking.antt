-- ===== src/Commons/Scheduler/Ranking.antt =====
-- The order of the ranked seeders (commons/scheduler.go).
use ocelot.Prelude.{◌≡◌, refl, ap, List, [], ◌∷◌, ◌++◌, map, All, arith, Bool-cases, inl, inr}
use ocelot.Prelude.Int.{◌≤ℤ◌, ltb_ℤ}
use mathlib.Core.List.{Perm, perm_middle}
use mathlib.Core.List.Perm
use ocelot.Commons.Scheduler.{
  Scored, SeederCandidate, score, rank_candidates, settle_in, sort_onto, reverse_onto, rank_scored,
}

-- From fewer points to more; `Falls` the other way.
unfoldable pub Rises : List Scored → Type 0
Rises [] = Unit
Rises (x ∷ xs) = All (λ y. x.1 ≤ℤ y.1) xs × Rises xs

unfoldable pub Falls : List Scored → Type 0
Falls [] = Unit
Falls (x ∷ xs) = All (λ y. y.1 ≤ℤ x.1) xs × Falls xs

All-settle_in :
    (P : Scored → Type 0) (x : Scored) (ys : List Scored) → P x → All P ys → All P (settle_in x ys)
unfolding settle_in
All-settle_in P x [] p h = (p, tt)
All-settle_in P x (y ∷ ys) p (q, h) = elim (Bool-cases (ltb_ℤ y.1 x.1)) [
  | inl e ↦ rw e (q, All-settle_in P x ys p h)
  | inr e ↦ rw e (p, (q, h))
]

settle_in-Perm : (x : Scored) (ys : List Scored) → Perm (x ∷ ys) (settle_in x ys)
unfolding settle_in
settle_in-Perm x [] = Perm.rfl
settle_in-Perm x (y ∷ ys) = elim (Bool-cases (ltb_ℤ y.1 x.1)) [
  | inl e ↦ rw e (Perm.trans (Perm.swap y x ys) (Perm.cons y (settle_in-Perm x ys)))
  | inr e ↦ rw e Perm.rfl
]

All-le :
    (x y : Scored) (zs : List Scored)
    → x.1 ≤ℤ y.1
    → All (λ z. y.1 ≤ℤ z.1) zs
    → All (λ z. x.1 ≤ℤ z.1) zs
All-le x y [] le h = tt
All-le x y (z ∷ zs) le (k, h) = (omega (arith, le, k), All-le x y zs le h)

settle_in-Rises : (x : Scored) (ys : List Scored) → Rises ys → Rises (settle_in x ys)
unfolding settle_in Rises
settle_in-Rises x [] h = (tt, tt)
settle_in-Rises x (y ∷ ys) (low, h) = elim (Bool-cases (ltb_ℤ y.1 x.1)) [
  | inl e ↦ rw e (All-settle_in (λ z. y.1 ≤ℤ z.1) x ys (ground arith) low, settle_in-Rises x ys h)
  | inr e ↦ rw e ((ground arith, All-le x y ys (ground arith) low), (low, h))
]

sort_onto-Rises : (done xs : List Scored) → Rises done → Rises (sort_onto done xs)
unfolding sort_onto
sort_onto-Rises done [] h = h
sort_onto-Rises done (x ∷ xs) h = sort_onto-Rises (settle_in x done) xs (settle_in-Rises x done h)

sort_onto-Perm : (done xs : List Scored) → Perm (xs ++ done) (sort_onto done xs)
unfolding sort_onto
sort_onto-Perm done [] = Perm.rfl
sort_onto-Perm done (x ∷ xs) = Perm.trans (Perm.symm (perm_middle xs done)) (
    Perm.trans (Perm.append_left xs (settle_in-Perm x done)) (sort_onto-Perm (settle_in x done) xs))

-- No item of the first list has fewer points than one of the second.
abbrev Above : List Scored → List Scored → Type 0
Above xs acc = All (λ y. All (λ z. z.1 ≤ℤ y.1) acc) xs

Above-cons :
    (x : Scored) (xs acc : List Scored)
    → All (λ y. x.1 ≤ℤ y.1) xs
    → Above xs acc
    → Above xs (x ∷ acc)
Above-cons x [] acc h k = tt
Above-cons x (y ∷ xs) acc (le, h) (k, ks) = ((le, k), Above-cons x xs acc h ks)

reverse_onto-Falls :
    (acc xs : List Scored) → Falls acc → Above xs acc → Rises xs → Falls (reverse_onto acc xs)
unfolding reverse_onto Falls Rises
reverse_onto-Falls acc [] f a r = f
reverse_onto-Falls acc (x ∷ xs) f (k, a) (low, r) =
    reverse_onto-Falls (x ∷ acc) xs (k, f) (Above-cons x xs acc low a) r

reverse_onto-Perm : (acc xs : List Scored) → Perm (xs ++ acc) (reverse_onto acc xs)
unfolding reverse_onto
reverse_onto-Perm acc [] = Perm.rfl
reverse_onto-Perm acc (x ∷ xs) =
    Perm.trans (Perm.symm (perm_middle xs acc)) (reverse_onto-Perm (x ∷ acc) xs)

Above-nil : (xs : List Scored) → Above xs []
Above-nil [] = tt
Above-nil (x ∷ xs) = (tt, Above-nil xs)

append_nil : (xs : List Scored) → xs ++ [] ≡ xs
append_nil [] = refl
append_nil (x ∷ xs) = ap (λ ys. x ∷ ys) (append_nil xs)

rank_scored-Falls : (xs : List Scored) → Falls (rank_scored xs)
unfolding rank_scored Falls Rises
rank_scored-Falls xs =
    reverse_onto-Falls [] (sort_onto [] xs) tt (Above-nil (sort_onto [] xs))
      (sort_onto-Rises [] xs tt)

rank_scored-Perm : (xs : List Scored) → Perm xs (rank_scored xs)
unfolding rank_scored
rank_scored-Perm xs =
    Perm.trans (rw (append_nil xs) at (sort_onto-Perm [] xs))
      (rw (append_nil (sort_onto [] xs)) at (reverse_onto-Perm [] (sort_onto [] xs)))

-- The second component is the score of the first.
abbrev IsScored : Scored → Type 0
IsScored x = x.1 ≡ score x.0

sort_onto-All :
    (done xs : List Scored) → All IsScored done → All IsScored xs → All IsScored (sort_onto done xs)
unfolding sort_onto
sort_onto-All done [] h k = h
sort_onto-All done (x ∷ xs) h (p, k) =
    sort_onto-All (settle_in x done) xs (All-settle_in IsScored x done p h) k

reverse_onto-All :
    (acc xs : List Scored) → All IsScored acc → All IsScored xs → All IsScored (reverse_onto acc xs)
unfolding reverse_onto
reverse_onto-All acc [] h k = h
reverse_onto-All acc (x ∷ xs) h (p, k) = reverse_onto-All (x ∷ acc) xs (p, h) k

scored_lem : (cs : List SeederCandidate) → All IsScored (map (λ c. (c, score c)) cs)
scored_lem [] = tt
scored_lem (c ∷ cs) = (refl, scored_lem cs)

-- From the best score to the worst.
unfoldable pub IsRanked : List SeederCandidate → Type 0
IsRanked [] = Unit
IsRanked (c ∷ cs) = All (λ d. score d ≤ℤ score c) cs × IsRanked cs

unscored_lem :
    (x : Scored) (xs : List Scored)
    → IsScored x
    → All IsScored xs
    → All (λ y. y.1 ≤ℤ x.1) xs
    → All (λ d. score d ≤ℤ score x.0) (map (λ y. y.0) xs)
unscored_lem x [] p h k = tt
unscored_lem x (y ∷ xs) p (q, h) (le, k) = (rw (← p, ← q) le, unscored_lem x xs p h k)

Falls-IsRanked : (xs : List Scored) → All IsScored xs → Falls xs → IsRanked (map (λ y. y.0) xs)
unfolding Falls IsRanked
Falls-IsRanked [] h f = tt
Falls-IsRanked (x ∷ xs) (p, h) (low, f) = (unscored_lem x xs p h low, Falls-IsRanked xs h f)

map_lem : (cs : List SeederCandidate) → map (λ (y : Scored). y.0) (map (λ c. (c, score c)) cs) ≡ cs
map_lem [] = refl
map_lem (c ∷ cs) = ap (λ ds. c ∷ ds) (map_lem cs)

-- The ranked seeders are the candidates, each as often as it was given, in an order in which none
-- has a better score than one before it.
pub rank_candidates-IsRanked :
    (cs : List SeederCandidate) → Perm cs (rank_candidates cs) × IsRanked (rank_candidates cs)
unfolding rank_candidates rank_scored
rank_candidates-IsRanked cs =
    let xs : List Scored = map (λ c. (c, score c)) cs in
    let p : Perm (map (λ (y : Scored). y.0) xs) (rank_candidates cs) =
      Perm.map (λ (y : Scored). y.0) (rank_scored-Perm xs) in
    (
      rw (map_lem cs) at p,
      Falls-IsRanked (rank_scored xs)
          (reverse_onto-All [] (sort_onto [] xs) tt (sort_onto-All [] xs tt (scored_lem cs)))
          (rank_scored-Falls xs),
    )
