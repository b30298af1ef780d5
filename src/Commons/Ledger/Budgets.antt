-- ===== src/Commons/Ledger/Budgets.antt =====
-- Budgets (commons/ledger.go and commons/commons.go).
use ocelot.Prelude.{
  ℕ, ◌≡◌, refl, true, false, ◌&&◌, none, some, String, List, [], ◌∷◌, select, map, All,
  if◌then◌else◌, ltb, nat_eq, string_eq, arith, Bool-cases, inl, inr, ◌⊎◌,
}
use ocelot.Prelude.Int.{ℤ, pos, ◌-ℤ◌, ◌≤ℤ◌, ◌<ℤ◌, ltb_ℤ, +ℤ_parts, -ℤ_parts, i64}
use ocelot.Prelude.Map.{lookup-insert}
use ocelot.Commons.Account.{Budget, is_protected}
use ocelot.Commons.Ledger.{
  Tables, Settlement, fetch_account, has_txn, consume, consume_all, settle, check_balance, limits,
  least_left, check_budget_available, check_allocation, insufficient_balance, budget_exhausted,
}
use ocelot.Commons.Ledger.Balances.{settle_cases, fetch_account_lem, txn_of}

abbrev pub HasLeft : Budget → Type 0
HasLeft b = b.consumed <ℤ b.max_credits

-- All that a user's budgets for a torrent leave is something.
abbrev pub AllHaveLeft : ℕ → ℕ → ℕ → Tables → Type 0
AllHaveLeft now user torrent t = All HasLeft (select (limits now user torrent) t.budgets)

least_left_iff :
    (bs : List Budget)
    → ((least_left bs ≡ none) × All HasLeft bs)
      ⊎ ((m : ℤ) × (least_left bs ≡ some m)
          × ((pos 0 <ℤ m → All HasLeft bs) × (All HasLeft bs → pos 0 <ℤ m)))
unfolding least_left
least_left_iff [] = inl (refl, tt)
least_left_iff (b ∷ bs) =
    let left = b.max_credits -ℤ b.consumed in
    let parts = -ℤ_parts b.max_credits b.consumed in
    elim (least_left_iff bs) [
      | inl (h, all) ↦ inr (
        left,
        rw (h, least_left) refl,
        (λ p. (omega (arith, parts, p), all), λ (p, _). omega (arith, parts, p)),
      )
      | inr (m, h, (f, g)) ↦ inr (
        (if ltb_ℤ m left then m else left),
        rw (h, least_left) refl,
        (
          λ p. (ground (arith, parts, p), f (ground (arith, p))),
          λ (p, all). ground (arith, parts, p, g all),
        ),
      )
    ]

check_budget_available_iff :
    (now user torrent : ℕ) (t : Tables)
    → ((pos 0 <ℤ check_budget_available now user torrent t) × AllHaveLeft now user torrent t)
      ⊎ ((check_budget_available now user torrent t ≤ℤ pos 0) × ¬ AllHaveLeft now user torrent t)
unfolding check_budget_available
check_budget_available_iff now user torrent t =
    elim (least_left_iff (select (limits now user torrent) t.budgets)) [
      | inl (h, all) ↦ inl (rw (h, check_budget_available) (omega arith), all)
      | inr (m, h, (f, g)) ↦ elim (Bool-cases (ltb_ℤ (pos 0) m)) [
        | inl p ↦ inl (rw (h, check_budget_available) (ground arith), f (ground arith))
        | inr p ↦ inr (rw (h, check_budget_available) (ground arith), λ all. ground (arith, g all))
      ]
    ]

-- A user of an unprotected class is refused for its budget exactly when it is not refused for its balance
-- and some budget of its own for the torrent, or for all torrents, that has not run out of time,
-- has nothing left; only the opportunistic class is refused for its balance, and the protected
-- classes are never refused.
pub check_allocation_iff :
    (now user torrent : ℕ) (pc : ℤ) (t : Tables)
    → ((is_protected pc ≡ true) × (check_allocation now user torrent pc t ≡ none))
      ⊎ ((is_protected pc ≡ false)
          × (pc ≡ pos 3)
          × (check_balance user t ≤ℤ pos 0)
          × (check_allocation now user torrent pc t ≡ some insufficient_balance))
      ⊎ ((is_protected pc ≡ false)
          × (pc ≡ pos 3 → pos 0 <ℤ check_balance user t)
          × (check_allocation now user torrent pc t ≡ some budget_exhausted)
          × ¬ AllHaveLeft now user torrent t)
      ⊎ ((is_protected pc ≡ false)
          × (check_allocation now user torrent pc t ≡ none)
          × AllHaveLeft now user torrent t
          × (pc ≡ pos 3 → pos 0 <ℤ check_balance user t))
unfolding check_allocation
check_allocation_iff now user torrent pc t = elim (check_budget_available_iff now user torrent t) [
  | inl (p, all) ↦ ground (arith, all)
  | inr (p, none_left) ↦ ground (arith, none_left)
]

consume-IsWithin :
    (user torrent : ℕ) (cost : ℤ) (b : Budget)
    → b.consumed ≤ℤ b.max_credits
    → (consume user torrent cost b).consumed ≤ℤ (consume user torrent cost b).max_credits
unfolding consume
consume-IsWithin user torrent cost b h =
    ground (arith, -ℤ_parts b.max_credits b.consumed, +ℤ_parts b.consumed cost)

abbrev IsWithin : Budget → Type 0
IsWithin b = b.consumed ≤ℤ b.max_credits

map-IsWithin :
    (user torrent : ℕ) (cost : ℤ) (bs : List Budget)
    → All IsWithin bs
    → All IsWithin (map (consume user torrent cost) bs)
map-IsWithin user torrent cost [] h = tt
map-IsWithin user torrent cost (b ∷ bs) (h, hs) =
    (consume-IsWithin user torrent cost b h, map-IsWithin user torrent cost bs hs)

consume_all-IsWithin :
    (user torrent : ℕ) (cost : ℤ) (bs : List Budget)
    → All IsWithin bs
    → All IsWithin (consume_all user torrent cost bs)
unfolding consume_all
consume_all-IsWithin user torrent cost bs h =
    elim (Bool-cases (ltb_ℤ (pos 0) cost && ltb 0 torrent)) [
      | inl e ↦ rw (e, consume_all) (map-IsWithin user torrent cost bs h)
      | inr e ↦ rw (e, consume_all) h
    ]

-- No settlement takes a budget over its maximum.
pub settle-IsWithin :
    (fresh : String) (now : ℕ) (s : Settlement) (t : Tables)
    → All IsWithin t.budgets
    → All IsWithin (settle fresh now s t).0.budgets
settle-IsWithin fresh now s t h =
    let (found, ledger, same, balance, others) = fetch_account_lem s.account now t in
    elim (settle_cases fresh now s t) [
      | inl (_, v, _) ↦ rw (v, same) h
      | inr (_, v, _) ↦ rw (v, same) (consume_all-IsWithin s.account s.torrent s.cost t.budgets h)
    ]

-- What every budget of the user for the torrent cannot hold.
abbrev TooSmall : ℤ → Budget → Type 0
TooSmall cost b = b.max_credits -ℤ b.consumed <ℤ cost

map-TooSmall :
    (user torrent : ℕ) (cost : ℤ) (bs : List Budget)
    → All (TooSmall cost) bs
    → map (consume user torrent cost) bs ≡ bs
unfolding consume
map-TooSmall user torrent cost [] h = refl
map-TooSmall user torrent cost (b ∷ bs) (h, hs) =
    ground (arith, map-TooSmall user torrent cost bs hs)

consume_all_small :
    (user torrent : ℕ) (cost : ℤ) (bs : List Budget)
    → All (TooSmall cost) bs
    → consume_all user torrent cost bs ≡ bs
unfolding consume_all
consume_all_small user torrent cost bs h = ground (arith, map-TooSmall user torrent cost bs h)

budgets_kept :
    (fresh : String) (now : ℕ) (s : Settlement) (t : Tables)
    → All (TooSmall s.cost) t.budgets
    → (settle fresh now s t).0.budgets ≡ t.budgets
budgets_kept fresh now s t small =
    let (found, ledger, same, balance, others) = fetch_account_lem s.account now t in
    elim (settle_cases fresh now s t) [
      | inl (_, v, _) ↦ rw v same
      | inr (_, v, _) ↦ rw (v, same) (consume_all_small s.account s.torrent s.cost t.budgets small)
    ]

-- A new charge that is more than what the budgets leave is made all the same: the user pays it, and no
-- budget counts it, so the budgets go on allowing the user whatever they allowed before.
pub settle_over_budget :
    (fresh : String) (now later user torrent : ℕ) (s : Settlement) (t : Tables)
    → has_txn (txn_of fresh s) t.ledger ≡ false
    → All (TooSmall s.cost) t.budgets
    → let (v, r) = settle fresh now s t in
      (r.was_idempotent ≡ false)
      × (v.budgets ≡ t.budgets)
      × (check_budget_available later user torrent v ≡ check_budget_available later user torrent t)
      × (check_balance s.account v ≡ i64 ((fetch_account s.account now t).1.balance -ℤ s.cost))
unfolding check_balance check_budget_available
settle_over_budget fresh now later user torrent s t new small =
    let (u, a) = fetch_account s.account now t in
    let (found, ledger, same, balance, others) = fetch_account_lem s.account now t in
    let b = record a { balance = i64 (a.balance -ℤ s.cost); updated_at = now } in
    let kept = budgets_kept fresh now s t small in
    elim (settle_cases fresh now s t) [
      | inl (old, _, _) ↦ ground (arith, new)
      | inr (_, v, r) ↦ (
        r,
        kept,
        rw (kept, check_budget_available) refl,
        rw v (ground (arith, lookup-insert s.account s.account b u.accounts)),
      )
    ]
