-- ===== src/Commons/Price.antt =====
-- commons/price.go and commons/resource.go: the prices of resources under scarcity. The numbers of
-- seeders and leechers are sizes of lists.
use ocelot.Prelude.{
  ℕ, ◌+◌, ◌-◌, ◌*◌, ◌/◌, ◌≡◌, refl, ◌||◌, Option, none, some, if◌then◌else◌, arith, String,
  string_eq, Option-cases, inl, inr, ◌⊎◌, leb,
}
use ocelot.Prelude.Int.{ℤ, pos, ◌+ℤ◌, ◌*ℤ◌, ◌/ℤ◌, ◌≤ℤ◌, ltb_ℤ, leb_ℤ, i64}
use ocelot.Commons.Credit.{mul_frac, mul_millis, clamp, clamp-bounds}

-- A `ResourceType` is a string: `other` stands for the strings that are no constant of the file.
pub data ResourceType : Type 0 where
  upload download seeding storage network : ResourceType
  other : String → ResourceType

abbrev resource_gb : ℕ
resource_gb = 1_073_741_824

abbrev resource_hour : ℕ
resource_hour = 3600

pub record ResourcePrice : Type 0 where
  pub base : ℤ
  pub min : ℤ
  pub max : ℤ

-- `Prices` is a map: a resource that it does not hold has no price.
pub record PriceTable : Type 0 where
  pub prices : ResourceType → Option ResourcePrice
  pub scarcity_factor : ℤ
  pub max_scarcity_multiplier : ℤ

abbrev cc : ℕ → ℤ
cc n = pos (n * 1_000_000)

unfoldable pub default_prices : ResourceType → Option ResourcePrice
default_prices upload = some (record { base = cc 10; min = cc 5; max = cc 100 })
default_prices download = some (record { base = cc 50; min = cc 10; max = cc 500 })
default_prices seeding = some (record { base = cc 5; min = cc 1; max = cc 50 })
default_prices storage = some (record { base = cc 2; min = cc 1; max = cc 20 })
default_prices network = some (record { base = cc 20; min = cc 5; max = cc 200 })
default_prices (other s) = none

unfoldable pub default_price_table : PriceTable
default_price_table = record {
  prices = default_prices;
  scarcity_factor = pos 2000;
  max_scarcity_multiplier = pos 3000;
}

-- In thousandths; it is below 1000.
unfoldable pub utilisation : ℕ → ℕ → ℕ
utilisation seeders leechers = leechers * 1000 / (seeders + leechers + 1)

unfoldable pub denominator : ℕ → ℕ
denominator util = if leb 1000 util then 1 else 1000 - util

unfoldable pub scarcity_multiplier_millis : PriceTable → ℕ → ℕ → ℤ
unfolding utilisation denominator
scarcity_multiplier_millis pt seeders leechers =
    let util = utilisation seeders leechers in
    let raw = i64 (pos 1000 +ℤ i64 (pt.scarcity_factor *ℤ pos util) /ℤ denominator util) in
    let top =
      if leb_ℤ pt.max_scarcity_multiplier (pos 1000)
      then pos 3000
      else pt.max_scarcity_multiplier in
    let capped = if ltb_ℤ top raw then top else raw in
    if ltb_ℤ capped (pos 1000) then pos 1000 else capped

unfoldable pub effective : PriceTable → ResourceType → ℕ → ℕ → ℤ
unfolding scarcity_multiplier_millis
effective pt rt seeders leechers = elim (pt.prices rt) [
  | none ↦ pos 0
  | some rp ↦
      clamp rp.min rp.max (mul_millis rp.base (scarcity_multiplier_millis pt seeders leechers))
]

unfoldable pub charge_for_download : PriceTable → ℤ → ℕ → ℕ → ℤ
unfolding effective
charge_for_download pt bytes seeders leechers =
    if leb_ℤ bytes (pos 0)
    then pos 0
    else mul_frac (effective pt download seeders leechers) bytes resource_gb

unfoldable pub credit_for_upload : PriceTable → ℤ → ℕ → ℕ → ℤ
unfolding effective
credit_for_upload pt bytes seeders leechers =
    if leb_ℤ bytes (pos 0)
    then pos 0
    else mul_frac (effective pt upload seeders leechers) bytes resource_gb

unfoldable pub credit_for_seeding : PriceTable → ℤ → ℤ → ℕ → ℕ → ℤ
unfolding effective
credit_for_seeding pt bytes seconds seeders leechers =
    if leb_ℤ bytes (pos 0) || leb_ℤ seconds (pos 0)
    then pos 0
    else (let price = effective pt seeding seeders leechers in
        let gb_hours = i64 (bytes /ℤ resource_gb *ℤ seconds) /ℤ resource_hour in
        if leb_ℤ gb_hours (pos 0)
        then mul_frac (mul_frac price bytes resource_gb) seconds resource_hour
        else mul_frac price gb_hours 1)

-- Whatever the swarm: scarcity multiplies a price by at least 1000 thousandths, and by at most the
-- maximum of the table, for which 3000 stands where it is 1000 or less.
pub scarcity_multiplier_millis-bounds :
    (pt : PriceTable) (seeders leechers : ℕ)
    → (pos 1000 ≤ℤ scarcity_multiplier_millis pt seeders leechers)
      × ((scarcity_multiplier_millis pt seeders leechers ≤ℤ pt.max_scarcity_multiplier)
          ⊎ ((pt.max_scarcity_multiplier ≤ℤ pos 1000)
              × (scarcity_multiplier_millis pt seeders leechers ≤ℤ pos 3000)))
unfolding scarcity_multiplier_millis
scarcity_multiplier_millis-bounds pt seeders leechers = ground arith

-- A resource that has a price, with a floor no higher than its ceiling, costs from the floor to the
-- ceiling whatever the swarm; one without a price costs nothing.
pub effective-bounds :
    (pt : PriceTable) (rt : ResourceType) (seeders leechers : ℕ)
    → ((rp : ResourcePrice) → pt.prices rt ≡ some rp → rp.min ≤ℤ rp.max)
    → ((pt.prices rt ≡ none) × (effective pt rt seeders leechers ≡ pos 0))
      ⊎ ((rp : ResourcePrice) × (pt.prices rt ≡ some rp)
          × (rp.min ≤ℤ effective pt rt seeders leechers)
          × (effective pt rt seeders leechers ≤ℤ rp.max))
unfolding effective
effective-bounds pt rt seeders leechers h = elim (Option-cases (pt.prices rt)) [
  | inl e ↦ inl (e, rw (e, effective) refl)
  | inr (rp, e) ↦
      let c =
        clamp-bounds rp.min rp.max
          (mul_millis rp.base (scarcity_multiplier_millis pt seeders leechers)) (h rp e) in
      inr (rp, e, rw (e, effective) c.0, rw (e, effective) c.1)
]
