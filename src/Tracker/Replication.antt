-- ===== src/Tracker/Replication.antt =====
-- tracker/replication_policy.go: how many copies an artifact should have. The smoothed demand and its
-- logarithm are floating-point, and are a parameter; the bounds and the hysteresis are not.
pub mod Hysteresis
use ocelot.Prelude.{ℕ, suc, Bool, if◌then◌else◌, leb}
use ocelot.Prelude.Int.{ℤ, ◌+ℤ◌, ltb_ℤ, leb_ℤ, pos, i64}

-- `smooth` is the moving average, `scaled` the rounded logarithm of one more than it.
pub record Popularity : Type 1 where
  pub Smoothed : Type 0
  pub smooth : ℕ → Smoothed → Smoothed
  pub scaled : Smoothed → ℤ

module _ (pop : Popularity) where
  open pop use {Smoothed, smooth, scaled}

  pub record Counter : Type 0 where
    pub smoothed : Smoothed
    pub current_desired : ℤ
    pub below_count : ℕ
    pub scale_down_threshold : ℕ

  abbrev pub clamp : ℤ → ℤ → ℤ → ℤ
  clamp lo hi n = let m = if ltb_ℤ hi n then hi else n in if ltb_ℤ m lo then lo else m

  -- The new counter; the value returned is its `current_desired`.
  unfoldable pub evaluate : ℕ → ℤ → ℤ → Counter → Counter
  evaluate demand lo hi c =
      let s = smooth demand c.smoothed in
      let desired = clamp lo hi (i64 (lo +ℤ scaled s)) in
      if ltb_ℤ desired c.current_desired
      then (if leb c.scale_down_threshold (suc c.below_count)
          then record c { smoothed = s; current_desired = desired; below_count = 0 }
          else record c { smoothed = s; below_count = suc c.below_count })
      else record c { smoothed = s; current_desired = desired; below_count = 0 }
