-- ===== src/Tracker/Replication/Hysteresis.antt =====
-- When the number of copies goes up and down.
use ocelot.Prelude.{ℕ, suc, ◌+◌, ◌≤◌, ◌<◌, ◌≡◌, refl, ◌∙◌, List, [], ◌∷◌, length, arith}
use ocelot.Prelude.Int.{ℤ, ◌+ℤ◌, ◌≤ℤ◌, ◌<ℤ◌, i64}
use ocelot.Tracker.Replication.{Popularity, Counter, clamp, evaluate}

module _ (pop : Popularity) where
  open pop use {Smoothed, smooth, scaled}

  -- What an evaluation by itself would ask for.
  abbrev pub wanted : ℕ → ℤ → ℤ → Counter pop → ℤ
  wanted demand lo hi c = clamp pop lo hi (i64 (lo +ℤ scaled (smooth demand c.smoothed)))

  -- An evaluation asks for what the demand and the bounds want, at once when that is no less than
  -- before; when it is less, it asks for what it did before, until that is so for the threshold's
  -- number of evaluations in a row. Bounds that are in order bound what is wanted.
  evaluate_lem :
      (demand : ℕ) (lo hi : ℤ) (c : Counter pop)
      → let w = wanted demand lo hi c in
        let d = evaluate pop demand lo hi c in
        (lo ≤ℤ hi → (lo ≤ℤ w) × (w ≤ℤ hi))
        × (c.current_desired ≤ℤ w → (d.current_desired ≡ w) × (d.below_count ≡ 0))
        × (w <ℤ c.current_desired
            → suc c.below_count < c.scale_down_threshold
            → (d.current_desired ≡ c.current_desired) × (d.below_count ≡ suc c.below_count))
        × (w <ℤ c.current_desired
            → c.scale_down_threshold ≤ suc c.below_count
            → (d.current_desired ≡ w) × (d.below_count ≡ 0))
  unfolding evaluate
  evaluate_lem demand lo hi c = (
    λ h. ground (arith, h),
    λ h. ground (arith, h),
    λ h k. ground (arith, h, k),
    λ h k. ground (arith, h, k),
  )

  threshold_kept :
      (demand : ℕ) (lo hi : ℤ) (c : Counter pop)
      → (evaluate pop demand lo hi c).scale_down_threshold ≡ c.scale_down_threshold
  unfolding evaluate
  threshold_kept demand lo hi c = ground arith

  -- An evaluation: the demand and the bounds.
  abbrev pub Evaluation : Type 0
  Evaluation = ℕ × ℤ × ℤ

  unfoldable pub run : List Evaluation → Counter pop → Counter pop
  run [] c = c
  run ((demand, lo, hi) ∷ es) c = run es (evaluate pop demand lo hi c)

  -- Each evaluation wants less than is asked for when its turn comes.
  unfoldable pub IsDip : List Evaluation → Counter pop → Type 0
  IsDip [] c = Unit
  IsDip ((demand, lo, hi) ∷ es) c =
      (wanted demand lo hi c <ℤ c.current_desired) × IsDip es (evaluate pop demand lo hi c)

  pub run-IsDip :
      (es : List Evaluation) (demand : ℕ) (lo hi : ℤ) (c : Counter pop)
      → IsDip es c
      → c.below_count + length es < c.scale_down_threshold
      → let d = run es c in
        (d.current_desired ≡ c.current_desired)
        × (d.below_count ≡ c.below_count + length es)
        × (wanted demand lo hi d <ℤ d.current_desired
            → suc (c.below_count + length es) ≡ c.scale_down_threshold
            → (evaluate pop demand lo hi d).current_desired ≡ wanted demand lo hi d)
  unfolding run IsDip
  run-IsDip [] demand lo hi c dip few =
      (refl, omega arith, λ h k. ((evaluate_lem demand lo hi c).3 h (omega arith)).0)
  run-IsDip ((x, y, z) ∷ es) demand lo hi c (below, dip) few =
      let next = evaluate pop x y z c in
      let (same, counted) = (evaluate_lem x y z c).2 below (omega arith) in
      let (desired, count, falls) =
        run-IsDip es demand lo hi next dip (omega (arith, counted, threshold_kept x y z c)) in
      (
        desired ∙ same,
        omega (arith, count, counted),
        λ h k. falls h (omega (arith, k, counted, threshold_kept x y z c)),
      )

  -- A counter that asks for more than the maximum of an evaluation, as that of another artifact may
  -- have left it, goes on asking for more than that maximum, unless the threshold is reached.
  pub evaluate_exceeds :
      (demand : ℕ) (lo hi : ℤ) (c : Counter pop)
      → lo ≤ℤ hi
      → hi <ℤ c.current_desired
      → suc c.below_count < c.scale_down_threshold
      → hi <ℤ (evaluate pop demand lo hi c).current_desired
  evaluate_exceeds demand lo hi c bounds above few = ground (arith, evaluate_lem demand lo hi c)
