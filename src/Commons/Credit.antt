-- ===== src/Commons/Credit.antt =====
-- commons/credit.go: credits, fixed-point numbers held in an int64.
use ocelot.Prelude.{
  ℕ, zero, suc, ◌+◌, ◌*◌, ◌/◌, ◌%◌, ◌^◌, ◌<◌, ◌≡◌, sym, ap, ◌∙◌, ◌||◌, if◌then◌else◌, nat_eq, arith,
}
use native.Mathlib.Nat.{
  mul_comm, zero-div, mod-le, div-le_self, mul-le-mul_right, mul-add-div_right, mod-add-div,
}
use ocelot.Prelude.Int.{ℤ, pos, ◌+ℤ◌, ◌*ℤ◌, ◌/ℤ◌, ◌%ℤ◌, ◌≤ℤ◌, ltb_ℤ, ℤ_beq, i64, i64_self}

abbrev pub credit_scale : ℕ
credit_scale = 1_000_000

unfoldable pub from_cc : ℤ → ℤ
from_cc cc = i64 (cc *ℤ pos credit_scale)

unfoldable pub from_milli_cc : ℤ → ℤ
from_milli_cc mcc = i64 (mcc *ℤ pos credit_scale) /ℤ 1000

unfoldable pub whole_cc : ℤ → ℤ
whole_cc c = c /ℤ credit_scale

unfoldable pub milli_cc : ℤ → ℤ
milli_cc c = i64 (c *ℤ pos 1000) /ℤ credit_scale

-- The product with num/denom; the denominator is positive (Go panics on 0).
unfoldable pub mul_frac : ℤ → ℤ → ℕ → ℤ
mul_frac c num denom =
    if ℤ_beq num (pos 0) || ℤ_beq c (pos 0)
    then pos 0
    else i64 (i64 (c /ℤ denom *ℤ num) +ℤ i64 (c %ℤ denom *ℤ num) /ℤ denom)

unfoldable pub mul_millis : ℤ → ℤ → ℤ
unfolding mul_frac
mul_millis c millis = mul_frac c millis 1000

abbrev pub max_credit : ℤ
max_credit = pos 9_200_000_000_000

unfoldable pub clamp : ℤ → ℤ → ℤ → ℤ
clamp low high c = if ltb_ℤ c low then low else (if ltb_ℤ high c then high else c)

-- A clamped credit is within the bounds, and a credit within them is left as it is.
pub clamp-bounds :
    (low high c : ℤ)
    → low ≤ℤ high
    → (low ≤ℤ clamp low high c)
      × (clamp low high c ≤ℤ high)
      × (low ≤ℤ c → c ≤ℤ high → clamp low high c ≡ c)
unfolding clamp
clamp-bounds low high c h = ground arith

pos_mul : (a b : ℕ) → pos a *ℤ pos b ≡ pos (a * b)
unfolding ◌*ℤ◌
pos_mul a b = ground arith

pos_div : (a d : ℕ) → pos a /ℤ d ≡ pos (a / d)
unfolding ◌/ℤ◌
pos_div a d = ground arith

pos_mod : (a d : ℕ) → pos a %ℤ d ≡ pos (a % d)
unfolding ◌%ℤ◌
pos_mod a d = ground arith

pos_add : (a b : ℕ) → pos a +ℤ pos b ≡ pos (a + b)
unfolding ◌+ℤ◌
pos_add a b = ground arith

i64_pos : (a : ℕ) → a < 2 ^ 63 → i64 (pos a) ≡ pos a
i64_pos a h = i64_self (pos a) (ground arith)

poly_lem : (q k d a : ℕ) → q * k * d + a * k ≡ (a + d * q) * k
poly_lem q k d a = grind arith

-- The two halves of a product are the product, rounded down once.
split_lem : (n k d : ℕ) → 0 < d → n / d * k + n % d * k / d ≡ n * k / d
split_lem n k d h =
    sym (mul-add-div_right h (n / d * k) (n % d * k))
    ∙ ap (λ x. x / d) (poly_lem (n / d) k d (n % d) ∙ ap (λ x. x * k) (mod-add-div n d))

halves_lem :
    (c num d : ℕ)
    → 0 < d
    → c * num < 2 ^ 63
    → i64 (i64 (pos c /ℤ d *ℤ pos num) +ℤ i64 (pos c %ℤ d *ℤ pos num) /ℤ d) ≡ pos (c * num / d)
halves_lem c num d h k =
    rw
      (
        pos_div c d,
        pos_mod c d,
        pos_mul (c / d) num,
        pos_mul (c % d) num,
        i64_pos (c / d * num) (omega (arith, mul-le-mul_right num (div-le_self c d))),
        i64_pos (c % d * num) (omega (arith, mul-le-mul_right num (mod-le c d))),
        pos_div (c % d * num) d,
        pos_add (c / d * num) (c % d * num / d),
        split_lem c num d h,
      )
      (i64_pos (c * num / d) (omega (arith, div-le_self (c * num) d)))

-- For a credit and a factor that are not negative and whose product fits an int64: `MulFrac` is that
-- product divided by the denominator, rounded down, as if no intermediate result were rounded.
pub mul_frac-exact :
    (c num denom : ℕ)
    → 0 < denom
    → c * num < 2 ^ 63
    → mul_frac (pos c) (pos num) denom ≡ pos (c * num / denom)
unfolding mul_frac
mul_frac-exact zero num d h k = ground (arith, zero-div d)
mul_frac-exact (suc c) zero d h k = ground (arith, zero-div d, mul_comm (suc c) zero)
mul_frac-exact (suc c) (suc num) d h k = ground (arith, halves_lem (suc c) (suc num) d h k)
