-- ===== src/Commons/Account.antt =====
-- commons/account.go and commons/priority.go: accounts, budgets and priority classes.
use ocelot.Prelude.{
  ℕ, ◌-◌, ltb, ◌*◌, ◌/◌, ◌≤◌, ◌≡◌, Bool, true, ◌&&◌, ◌||◌, Option, if◌then◌else◌, arith, ◌↔◌,
}
use ocelot.Prelude.Int.{
  ℤ, pos, negsuc, pos_part, ◌+ℤ◌, ◌-ℤ◌, ◌*ℤ◌, ◌/ℤ◌, ◌≤ℤ◌, ◌<ℤ◌, ltb_ℤ, leb_ℤ, ℤ_beq, i64, IsI64,
  i64_self,
}

-- A `PriorityClass` is an int, of which 0 to 3 are the defined classes.
unfoldable pub is_protected : ℤ → Bool
is_protected pc = ℤ_beq pc (pos 0) || ℤ_beq pc (pos 1)

unfoldable pub is_valid_class : ℤ → Bool
is_valid_class pc = leb_ℤ (pos 0) pc && leb_ℤ pc (pos 3)

unfoldable pub outranks : ℤ → ℤ → Bool
outranks pc other = ltb_ℤ pc other

-- `EffectivePriority` of commons/workload.go.
unfoldable pub effective_priority : ℤ → ℤ
unfolding is_valid_class
effective_priority pc = if is_valid_class pc then pc else pos 2

pub record Account : Type 0 where
  pub balance : ℤ
  pub allocated : ℤ
  pub reserved : ℤ
  pub reputation : ℤ
  pub priority_class : ℤ
  pub created_at : ℕ
  pub updated_at : ℕ

unfoldable pub available : Account → ℤ
available a =
    let avail = i64 (a.balance -ℤ a.reserved) in if ltb_ℤ avail (pos 0) then pos 0 else avail

unfoldable pub can_afford : Account → ℤ → Bool
unfolding is_protected available
can_afford a cost = if is_protected a.priority_class then true else leb_ℤ cost (available a)

pub record Budget : Type 0 where
  pub budget_user : ℕ
  pub budget_torrent : Option ℕ  -- none: any torrent
  pub max_credits : ℤ
  pub consumed : ℤ
  pub deadline : Option ℕ

unfoldable pub remaining : Budget → ℤ
remaining b = let r = i64 (b.max_credits -ℤ b.consumed) in if ltb_ℤ r (pos 0) then pos 0 else r

unfoldable pub is_exhausted : Budget → Bool
is_exhausted b = leb_ℤ b.max_credits b.consumed

unfoldable pub can_accept : Budget → ℤ → Bool
can_accept b cost = leb_ℤ (i64 (b.consumed +ℤ cost)) b.max_credits

unfoldable pub reputation_discount : ℤ → ℤ
reputation_discount r =
    let low = if ltb_ℤ r (pos 0) then pos 0 else r in
    let capped = if ltb_ℤ (pos 10000) low then pos 10000 else low in
    pos 1200 -ℤ capped *ℤ pos 400 /ℤ 10000

abbrev capped : ℤ → ℕ
capped r = if ltb 10000 (pos_part r) then 10000 else pos_part r

reputation_discount_lem : (r : ℤ) → reputation_discount r ≡ pos (1200 - capped r * 400 / 10000)
unfolding reputation_discount ◌-ℤ◌ ◌*ℤ◌ ◌/ℤ◌
reputation_discount_lem (pos n) = ground arith
reputation_discount_lem (negsuc n) = ground arith

capped_lem : (r s : ℤ) → r ≤ℤ s → (capped r ≤ capped s) × (capped s ≤ 10000)
capped_lem r s h = ground arith

-- The multiplier is from 800 to 1200 for every reputation, and a better one never pays more.
pub reputation_discount-bounds :
    (r s : ℤ)
    → r ≤ℤ s
    → (pos 800 ≤ℤ reputation_discount r)
      × (reputation_discount r ≤ℤ pos 1200)
      × (reputation_discount s ≤ℤ reputation_discount r)
reputation_discount-bounds r s h =
    let (le, top) = capped_lem r s h in
    rw (reputation_discount_lem r, reputation_discount_lem s)
      (omega (arith, le, top), omega arith, omega (arith, le, top))

-- Where neither the sums nor the differences leave the int64 range: a budget that is not exhausted has
-- something left, and it accepts exactly the costs up to what is left, for costs that are positive.
pub can_accept_iff :
    (b : Budget) (cost : ℤ)
    → IsI64 (b.max_credits -ℤ b.consumed)
    → IsI64 (b.consumed +ℤ cost)
    → pos 0 <ℤ cost
    → ((can_accept b cost ≡ true) ↔ (cost ≤ℤ remaining b))
      × (is_exhausted b ≡ true ↔ (remaining b ≡ pos 0))
unfolding can_accept remaining is_exhausted ◌+ℤ◌ ◌-ℤ◌
can_accept_iff b cost h k p =
    ground (arith, i64_self (b.max_credits -ℤ b.consumed) h, i64_self (b.consumed +ℤ cost) k)
