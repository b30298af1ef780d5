-- ===== src/Commons/Scheduler.antt =====
-- commons/scheduler.go: the economic ranking of seeders, with EvaluatePeers of commons/commons.go and
-- the policy of commons/workload.go. The texts that explain a decision and the metrics are left out.
pub mod Ranking
pub mod Policy
use ocelot.Prelude.{
  ℕ, ◌+◌, ◌*◌, ◌/◌, ◌≡◌, refl, Bool, true, false, ◌&&◌, ◌||◌, not, Option, none, some, String, List,
  [], ◌∷◌, map, ◌++◌, if◌then◌else◌, ltb,
}
use ocelot.Prelude.Int.{ℤ, pos, ◌+ℤ◌, ◌-ℤ◌, ◌*ℤ◌, ◌/ℤ◌, ltb_ℤ, leb_ℤ, ℤ_beq, i64}
use ocelot.Commons.Account.{is_protected, effective_priority}
use ocelot.Commons.Credit.{mul_frac}
use ocelot.Commons.Price.{PriceTable, effective, download}
use ocelot.Commons.Ledger.{Tables, check_balance, check_budget_available}

-- The fields of a `SeederCandidate` that are scored. The uptime and the number of peers are not negative.
pub record SeederCandidate : Type 0 where
  pub user_id : ℕ
  pub artifact_local : Bool
  pub storage_local : Bool
  pub uptime_sec : ℕ
  pub reputation_score : ℤ
  pub connected_peers : ℕ
  pub candidate_class : ℤ

-- The fields of a `WorkloadEconomics` that are read; the price cap is that of downloads.
pub record WorkloadEconomics : Type 0 where
  pub max_total_credits : ℤ
  pub priority_class : ℤ
  pub max_download_price : Option ℤ

pub record AllocationRequest : Type 0 where
  pub leecher : ℕ
  pub torrent : ℕ
  pub economics : Option WorkloadEconomics
  pub candidates : List SeederCandidate
  pub seeders : ℕ
  pub leechers : ℕ

pub data RejectionReason : Type 0 where
  insufficient_balance budget_exhausted price_cap_exceeded : RejectionReason

pub record AllocationDecision : Type 0 where
  pub rejection : Option RejectionReason  -- none: accepted
  pub ranked_seeders : List SeederCandidate
  pub estimated_cost : ℤ
  pub effective_price : ℤ

abbrev points : Bool → ℕ → ℤ
points b n = if b then pos n else pos 0

-- The sum does not leave the int64 range for the counts that occur.
unfoldable pub score : SeederCandidate → ℤ
score c =
    points c.artifact_local 500
    +ℤ points c.storage_local 300
    +ℤ pos (c.uptime_sec * 400 / (c.uptime_sec + 3600 + 1))
    +ℤ c.reputation_score *ℤ pos 200 /ℤ 10001
    -ℤ pos (c.connected_peers / 10 * 50)
    +ℤ points (ℤ_beq c.candidate_class (pos 1)) 200

abbrev pub Scored : Type 0
Scored = SeederCandidate × ℤ

-- The inner loop: the new item moves towards the front of the sorted part, here with its last item
-- first, while it has more points than the item before it.
unfoldable pub settle_in : Scored → List Scored → List Scored
settle_in x [] = x ∷ []
settle_in x (y ∷ ys) = let rest = settle_in x ys in if ltb_ℤ y.1 x.1 then y ∷ rest else x ∷ (y ∷ ys)

-- The outer loop, with the sorted part reversed.
unfoldable pub sort_onto : List Scored → List Scored → List Scored
unfolding settle_in
sort_onto done [] = done
sort_onto done (x ∷ xs) = sort_onto (settle_in x done) xs

unfoldable pub reverse_onto : List Scored → List Scored → List Scored
reverse_onto acc [] = acc
reverse_onto acc (x ∷ xs) = reverse_onto (x ∷ acc) xs

unfoldable pub rank_scored : List Scored → List Scored
unfolding sort_onto reverse_onto
rank_scored xs = reverse_onto [] (sort_onto [] xs)

unfoldable pub rank_candidates : List SeederCandidate → List SeederCandidate
unfolding score rank_scored
rank_candidates cs = map (λ x. x.0) (rank_scored (map (λ c. (c, score c)) cs))

unfoldable pub estimate_cost : ℤ → WorkloadEconomics → ℤ
unfolding mul_frac
estimate_cost price we =
    let cost = mul_frac price (pos 10_485_760) 1_073_741_824 in
    if ltb_ℤ (pos 0) we.max_total_credits && ltb_ℤ we.max_total_credits cost
    then we.max_total_credits
    else cost

abbrev pub default_economics : WorkloadEconomics
default_economics = record {
  max_total_credits = pos 0;
  priority_class = pos 2;
  max_download_price = none;
}

abbrev or_default : Option WorkloadEconomics → WorkloadEconomics
or_default none = default_economics
or_default (some we) = we

-- Whether the price is over the cap of the workload, if it has one.
unfoldable pub over_cap : ℤ → Option ℤ → Bool
over_cap price none = false
over_cap price (some cap) = ltb_ℤ (pos 0) cap && ltb_ℤ cap price

abbrev reject : RejectionReason → ℤ → AllocationDecision
reject reason price = record {
  rejection = some reason;
  ranked_seeders = [];
  estimated_cost = pos 0;
  effective_price = price;
}

abbrev accept : List SeederCandidate → ℤ → ℤ → AllocationDecision
accept ranked cost price = record {
  rejection = none;
  ranked_seeders = ranked;
  estimated_cost = cost;
  effective_price = price;
}

unfoldable pub evaluate : PriceTable → AllocationRequest → ℤ → ℤ → AllocationDecision
unfolding effective_priority is_protected rank_candidates estimate_cost over_cap
evaluate pt req balance budget =
    let we = or_default req.economics in
    let pc = effective_priority we.priority_class in
    let price = effective pt download req.seeders req.leechers in
    let ranked = rank_candidates req.candidates in
    if is_protected pc
    then accept ranked (pos 0) price
    else (if leb_ℤ balance (pos 0)
        then reject insufficient_balance price
        else (if leb_ℤ budget (pos 0)
            then reject budget_exhausted price
            else (if over_cap price we.max_download_price && ℤ_beq pc (pos 3)
                then reject price_cap_exceeded price
                else accept ranked (estimate_cost price we) price)))

-- With the balance and the budget of the database, which is read without an error.
unfoldable pub evaluate_peers : ℕ → PriceTable → AllocationRequest → Tables → AllocationDecision
unfolding evaluate
evaluate_peers now pt req t =
    evaluate pt req (check_balance req.leecher t)
      (check_budget_available now req.leecher req.torrent t)
