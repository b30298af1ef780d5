-- ===== src/Tests/Commons.antt =====
-- The economic layer at concrete tables.
use ocelot.Prelude.{
  ℕ, ◌*◌, ◌≡◌, refl, ◌≢◌, ◌↔◌, true, false, Option, none, some, [], ◌∷◌, arith, ◌⊎◌, string_eq,
  nat_eq,
}
use ocelot.Prelude.Int.{pos, ◌-ℤ◌, ◌≤ℤ◌, ◌<ℤ◌, i64}
use ocelot.Prelude.Map.{lookup}
use mathlib.Core.List.{Perm}
use ocelot.Commons.Account.{is_protected, effective_priority}
use ocelot.Commons.Ledger.{
  Tables, Settlement, settle, new_account, check_allocation, check_balance, insufficient_balance,
  budget_exhausted,
}
use ocelot.Commons.Ledger.Balances.{IsBalanced, settle-IsBalanced, settle_again, balance_of, spent}
use ocelot.Commons.Ledger.Budgets.{check_allocation_iff, AllHaveLeft}
use ocelot.Commons.Price.{ResourcePrice, default_price_table, default_prices, download, effective}
use ocelot.Commons.Scheduler.{
  SeederCandidate, WorkloadEconomics, AllocationRequest, evaluate, rank_candidates, over_cap,
  AllocationDecision, estimate_cost,
}
use ocelot.Commons.Scheduler.Policy.{evaluate_policy}
use ocelot.Commons.Scheduler.Ranking.{rank_candidates-IsRanked, IsRanked}

abbrev no_tables : Tables
no_tables = record { accounts = []; ledger = []; budgets = [] }

abbrev settlement : Settlement
settlement = record {
  account = 3;
  torrent = 1;
  resource = download;
  amount = pos 1_000;
  price = pos 50;
  cost = pos 400;
  reason = "download_charge";
  txn = "t";
}

no_tables-IsBalanced : IsBalanced no_tables
unfolding IsBalanced balance_of lookup spent i64 ◌-ℤ◌
no_tables-IsBalanced id = refl

settle-IsBalanced_example : IsBalanced (settle "r" 5 settlement no_tables).0
settle-IsBalanced_example = settle-IsBalanced "r" 5 settlement no_tables no_tables-IsBalanced

settle_again_example :
    ((settle "q" 6 settlement (settle "r" 5 settlement no_tables).0).0
      ≡ (settle "r" 5 settlement no_tables).0)
    × ((settle "q" 6 settlement (settle "r" 5 settlement no_tables).0).1.was_idempotent ≡ true)
settle_again_example = settle_again "r" "q" 5 6 settlement no_tables refl

abbrev tables : Tables
tables = record {
  accounts = (3, new_account 1) ∷ [];
  ledger = [];
  budgets =
      record {
        budget_user = 3;
        budget_torrent = some 1;
        max_credits = pos 500;
        consumed = pos 200;
        deadline = none;
      }
      ∷ [];
}

check_allocation_iff_example :
    ((is_protected (pos 2) ≡ true) × (check_allocation 5 3 1 (pos 2) tables ≡ none))
    ⊎ ((is_protected (pos 2) ≡ false)
        × (pos 2 ≡ pos 3)
        × (check_balance 3 tables ≤ℤ pos 0)
        × (check_allocation 5 3 1 (pos 2) tables ≡ some insufficient_balance))
    ⊎ ((is_protected (pos 2) ≡ false)
        × (pos 2 ≡ pos 3 → pos 0 <ℤ check_balance 3 tables)
        × (check_allocation 5 3 1 (pos 2) tables ≡ some budget_exhausted)
        × ¬ AllHaveLeft 5 3 1 tables)
    ⊎ ((is_protected (pos 2) ≡ false)
        × (check_allocation 5 3 1 (pos 2) tables ≡ none)
        × AllHaveLeft 5 3 1 tables
        × (pos 2 ≡ pos 3 → pos 0 <ℤ check_balance 3 tables))
check_allocation_iff_example = check_allocation_iff 5 3 1 (pos 2) tables

abbrev candidate : ℕ → SeederCandidate
candidate n = record {
  user_id = n;
  artifact_local = false;
  storage_local = false;
  uptime_sec = n * 1800;
  reputation_score = pos 5000;
  connected_peers = 0;
  candidate_class = pos 2;
}

rank_candidates-IsRanked_example :
    Perm
      (candidate 1 ∷ candidate 5 ∷ candidate 2 ∷ [])
      (rank_candidates (candidate 1 ∷ candidate 5 ∷ candidate 2 ∷ []))
    × IsRanked (rank_candidates (candidate 1 ∷ candidate 5 ∷ candidate 2 ∷ []))
rank_candidates-IsRanked_example =
    rank_candidates-IsRanked (candidate 1 ∷ candidate 5 ∷ candidate 2 ∷ [])

abbrev economics : WorkloadEconomics
economics = record {
  max_total_credits = pos 0;
  priority_class = pos 3;
  max_download_price = some (pos 1_000_000);
}

abbrev request : Option WorkloadEconomics → AllocationRequest
request we = record {
  leecher = 4;
  torrent = 1;
  economics = we;
  candidates = candidate 1 ∷ [];
  seeders = 1;
  leechers = 9;
}

abbrev decided : AllocationDecision
decided = evaluate default_price_table (request (some economics)) (pos 5) (pos 5)

evaluate_policy_example :
    ((decided.rejection ≡ none) ↔ (
      (is_protected (effective_priority (pos 3)) ≡ true)
      ⊎ ((pos 0 <ℤ pos 5)
          × (pos 0 <ℤ pos 5)
          × ((effective_priority (pos 3) ≢ pos 3)
              ⊎ (over_cap decided.effective_price (some (pos 1_000_000)) ≡ false)))))
    × (decided.rejection ≡ none → decided.ranked_seeders ≡ rank_candidates (candidate 1 ∷ []))
    × (decided.rejection ≢ none → decided.ranked_seeders ≡ [])
    × (is_protected (effective_priority (pos 3)) ≡ true → decided.estimated_cost ≡ pos 0)
    × (decided.rejection ≡ none
        → is_protected (effective_priority (pos 3)) ≡ false
        → decided.estimated_cost ≡ estimate_cost decided.effective_price economics)
    × (decided.rejection ≢ none → decided.estimated_cost ≡ pos 0)
    × (decided.effective_price ≡ effective default_price_table download 1 9)
evaluate_policy_example =
    evaluate_policy default_price_table (request (some economics)) economics (pos 5) (pos 5) refl

default_prices-IsOrdered :
    (rp : ResourcePrice) → default_prices download ≡ some rp → rp.min ≤ℤ rp.max
unfolding default_prices
default_prices-IsOrdered rp e = ground (arith, e)
