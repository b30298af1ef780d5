-- ===== src/Commons/Scheduler/Policy.antt =====
-- Policy before price (commons/scheduler.go).
use ocelot.Prelude.{ℕ, ◌≡◌, refl, ◌≢◌, ◌↔◌, true, false, none, some, [], arith, ◌⊎◌, nat_eq}
use ocelot.Prelude.Int.{ℤ, pos, ◌<ℤ◌}
use ocelot.Prelude.Map.{lookup}
use ocelot.Commons.Account.{is_protected, effective_priority}
use ocelot.Commons.Price.{PriceTable, effective, download}
use ocelot.Commons.Ledger.{Tables, check_balance}
use ocelot.Commons.Scheduler.{
  AllocationRequest, WorkloadEconomics, evaluate, evaluate_peers, rank_candidates, over_cap,
  estimate_cost, insufficient_balance,
}

pub evaluate_policy :
    (pt : PriceTable) (req : AllocationRequest) (we : WorkloadEconomics) (balance budget : ℤ)
    → req.economics ≡ some we
    → let d = evaluate pt req balance budget in
      let pc = effective_priority we.priority_class in
      ((d.rejection ≡ none) ↔ (
        (is_protected pc ≡ true)
        ⊎ ((pos 0 <ℤ balance)
            × (pos 0 <ℤ budget)
            × ((pc ≢ pos 3) ⊎ (over_cap d.effective_price we.max_download_price ≡ false)))))
      × (d.rejection ≡ none → d.ranked_seeders ≡ rank_candidates req.candidates)
      × (d.rejection ≢ none → d.ranked_seeders ≡ [])
      × (is_protected pc ≡ true → d.estimated_cost ≡ pos 0)
      × (d.rejection ≡ none
          → is_protected pc ≡ false
          → d.estimated_cost ≡ estimate_cost d.effective_price we)
      × (d.rejection ≢ none → d.estimated_cost ≡ pos 0)
      × (d.effective_price ≡ effective pt download req.seeders req.leechers)
unfolding evaluate effective_priority is_protected
evaluate_policy pt req we balance budget h = ground arith

no_balance : (user : ℕ) (t : Tables) → lookup user t.accounts ≡ none → check_balance user t ≡ pos 0
unfolding check_balance
no_balance user t h = rw (h, check_balance) refl

-- A user who has no account yet is refused for its balance, and gets no seeders, where the workload
-- has no policy of its own.
pub evaluate_peers_newcomer :
    (now : ℕ) (pt : PriceTable) (req : AllocationRequest) (t : Tables)
    → req.economics ≡ none
    → lookup req.leecher t.accounts ≡ none
    → ((evaluate_peers now pt req t).rejection ≡ some insufficient_balance)
      × ((evaluate_peers now pt req t).ranked_seeders ≡ [])
unfolding evaluate_peers evaluate effective_priority is_protected
evaluate_peers_newcomer now pt req t h k = ground (arith, no_balance req.leecher t k)
