-- ===== src/Commons/Ledger.antt =====
-- commons/ledger.go: the ledger, the balances and the budgets in the database; and CheckAllocation,
-- SetUserPriority and SetUserBudget of commons/commons.go. An error of the database rolls the whole
-- transaction back; the statements here succeed. SQLite's integers stay within 64 bits.
pub mod Balances
pub mod Budgets
use ocelot.Prelude.{
  ℕ, ◌+◌, ◌≡◌, refl, Bool, true, false, ◌&&◌, ◌||◌, not, Option, none, some, String, List, [], ◌∷◌,
  any, is_some, map, if◌then◌else◌, ltb, ◌==◌, nat_eq, string_eq, select,
}
use ocelot.Prelude.Int.{ℤ, pos, ◌+ℤ◌, ◌-ℤ◌, ltb_ℤ, leb_ℤ, ℤ_beq, i64}
use ocelot.Prelude.Map.{Map, lookup, insert}
use ocelot.Commons.Account.{Account, Budget, is_protected, is_valid_class}
use ocelot.Commons.Credit.{max_credit, from_cc}
use ocelot.Commons.Price.{ResourceType}

pub record LedgerEntry : Type 0 where
  pub txn_id : String
  pub account_id : ℕ
  pub torrent_id : ℕ
  pub resource_type : ResourceType
  pub quantity : ℤ
  pub unit_price : ℤ
  pub charge : ℤ
  pub balance_before : ℤ
  pub balance_after : ℤ
  pub alloc_reason : String
  pub created_at : ℕ

-- The tables `commons_accounts`, `commons_ledger` (the newest first) and `commons_budgets`.
pub record Tables : Type 0 where
  pub accounts : Map ℕ Account
  pub ledger : List LedgerEntry
  pub budgets : List Budget

-- The arguments of `Settle`.
pub record Settlement : Type 0 where
  pub account : ℕ
  pub torrent : ℕ
  pub resource : ResourceType
  pub amount : ℤ
  pub price : ℤ
  pub cost : ℤ
  pub reason : String
  pub txn : String

pub record SettleResult : Type 0 where
  pub result_txn : String
  pub before : ℤ
  pub after : ℤ
  pub charged : ℤ
  pub was_idempotent : Bool

abbrev pub default_starting_balance : ℤ
default_starting_balance = pos 1_000_000_000

unfoldable pub new_account : ℕ → Account
new_account now = record {
  balance = default_starting_balance;
  allocated = default_starting_balance;
  reserved = pos 0;
  reputation = pos 5000;
  priority_class = pos 2;
  created_at = now;
  updated_at = now;
}

-- The account's row, made first where there is none.
unfoldable pub fetch_account : ℕ → ℕ → Tables → Tables × Account
unfolding new_account
fetch_account id now t = elim (lookup id t.accounts) [
  | some a ↦ (t, a)
  | none ↦ let a = new_account now in (record t { accounts = insert id a t.accounts }, a)
]

unfoldable pub has_txn : String → List LedgerEntry → Bool
has_txn txn es = any (λ e. e.txn_id == txn) es

abbrev is_torrent : ℕ → Option ℕ → Bool
is_torrent id none = false
is_torrent id (some n) = n == id

-- The `UPDATE` of a budget's consumption.
unfoldable pub consume : ℕ → ℕ → ℤ → Budget → Budget
consume user torrent cost b =
    if b.budget_user == user
      && (is_torrent torrent b.budget_torrent && leb_ℤ cost (b.max_credits -ℤ b.consumed))
    then record b { consumed = b.consumed +ℤ cost }
    else b

unfoldable pub consume_all : ℕ → ℕ → ℤ → List Budget → List Budget
unfolding consume
consume_all user torrent cost bs =
    if ltb_ℤ (pos 0) cost && ltb 0 torrent then map (consume user torrent cost) bs else bs

unfoldable pub entry_of : String → ℕ → Settlement → ℤ → ℤ → LedgerEntry
entry_of txn now s before after = record {
  txn_id = txn;
  account_id = s.account;
  torrent_id = s.torrent;
  resource_type = s.resource;
  quantity = s.amount;
  unit_price = s.price;
  charge = s.cost;
  balance_before = before;
  balance_after = after;
  alloc_reason = s.reason;
  created_at = now;
}

-- `Settle`; `fresh` is the random id that stands in for an empty one.
unfoldable pub settle : String → ℕ → Settlement → Tables → Tables × SettleResult
unfolding fetch_account has_txn consume_all entry_of
settle fresh now s t =
    let txn = if s.txn == "" then fresh else s.txn in
    let (u, a) = fetch_account s.account now t in
    let after = i64 (a.balance -ℤ s.cost) in
    if has_txn txn u.ledger
    then (
      u,
      record {
        result_txn = txn;
        before = a.balance;
        after = a.balance;
        charged = s.cost;
        was_idempotent = true;
      },
    )
    else (
      record u {
        accounts = insert s.account (record a { balance = after; updated_at = now }) u.accounts;
        ledger = entry_of txn now s a.balance after ∷ u.ledger;
        budgets = consume_all s.account s.torrent s.cost u.budgets;
      },
      record {
        result_txn = txn;
        before = a.balance;
        after = after;
        charged = s.cost;
        was_idempotent = false;
      },
    )

unfoldable pub check_balance : ℕ → Tables → ℤ
check_balance id t = elim (lookup id t.accounts) [ none ↦ pos 0 | some a ↦ a.balance ]

abbrev applies_to : ℕ → Option ℕ → Bool
applies_to torrent none = true
applies_to torrent (some n) = n == torrent

abbrev is_open : ℕ → Option ℕ → Bool
is_open now none = true
is_open now (some deadline) = ltb now deadline

-- The budgets that limit a user on a torrent.
unfoldable pub limits : ℕ → ℕ → ℕ → Budget → Bool
limits now user torrent b =
    b.budget_user == user && (applies_to torrent b.budget_torrent && is_open now b.deadline)

-- `MIN(max_credits - consumed)`, which is NULL without rows.
unfoldable pub least_left : List Budget → Option ℤ
least_left [] = none
least_left (b ∷ bs) =
    let left = b.max_credits -ℤ b.consumed in
    elim (least_left bs) [ none ↦ some left | some m ↦ some (if ltb_ℤ m left then m else left) ]

unfoldable pub check_budget_available : ℕ → ℕ → ℕ → Tables → ℤ
unfolding limits least_left
check_budget_available now user torrent t =
    elim (least_left (select (limits now user torrent) t.budgets)) [
      | none ↦ max_credit
      | some m ↦ if ltb_ℤ m (pos 0) then pos 0 else m
    ]

pub data AllocationError : Type 0 where
  insufficient_balance budget_exhausted : AllocationError

unfoldable pub check_allocation : ℕ → ℕ → ℕ → ℤ → Tables → Option AllocationError
unfolding check_balance check_budget_available is_protected
check_allocation now user torrent pc t =
    if is_protected pc
    then none
    else (if leb_ℤ (check_balance user t) (pos 0) && ℤ_beq pc (pos 3)
        then some insufficient_balance
        else (if leb_ℤ (check_budget_available now user torrent t) (pos 0)
            then some budget_exhausted
            else none))

unfoldable pub with_class : ℤ → ℕ → Option Account → Account
with_class pc now none = record {
  balance = default_starting_balance;
  allocated = pos 0;
  reserved = pos 0;
  reputation = pos 5000;
  priority_class = pc;
  created_at = now;
  updated_at = now;
}
with_class pc now (some a) = record a { priority_class = pc; updated_at = now }

-- `SetUserPriority`: the row is read, and written back whole; `between` is what others do meanwhile.
-- The result tells whether the class is one of the four.
unfoldable pub set_user_priority : (Tables → Tables) → ℕ → ℤ → ℕ → Tables → Tables × Bool
unfolding is_valid_class with_class
set_user_priority between user pc now t =
    if not (is_valid_class pc)
    then (t, false)
    else (let u = between t in
        (
          record u {
            accounts = insert user (with_class pc now (lookup user t.accounts)) u.accounts;
          },
          true,
        ))
