-- ===== src/Commons/Ledger/Balances.antt =====
-- Balances against the ledger (commons/ledger.go).
use ocelot.Prelude.{
  ℕ, ◌≡◌, refl, ap, ◌∙◌, true, false, none, some, String, List, [], ◌∷◌, any, if◌then◌else◌, ◌==◌,
  nat_eq, string_eq, arith, Option-cases, Bool-cases, inl, inr, ◌⊎◌,
}
use ocelot.Prelude.Int.{ℤ, pos, ◌+ℤ◌, ◌-ℤ◌, i64, i64_cong, i64_mod, +ℤ_parts, -ℤ_parts}
use ocelot.Prelude.Map.{lookup, insert, lookup-insert}
use ocelot.Commons.Account.{Account, Budget, is_valid_class}
use ocelot.Commons.Ledger.{
  LedgerEntry, Tables, Settlement, default_starting_balance, new_account, fetch_account, has_txn,
  consume_all, entry_of, settle, with_class, set_user_priority,
}

-- The sum of an account's charges in the ledger.
unfoldable pub spent : ℕ → List LedgerEntry → ℤ
spent id [] = pos 0
spent id (e ∷ es) = if e.account_id == id then spent id es +ℤ e.charge else spent id es

-- An account that has no row yet will start with the default.
unfoldable pub balance_of : ℕ → Tables → ℤ
balance_of id t = elim (lookup id t.accounts) [
  | none ↦ default_starting_balance
  | some a ↦ a.balance
]

-- Every balance is the starting balance less the charges of the ledger, as an int64.
unfoldable pub IsBalanced : Tables → Type 0
IsBalanced t = (id : ℕ) → balance_of id t ≡ i64 (default_starting_balance -ℤ spent id t.ledger)

i64_lem : (a b c : ℤ) → i64 (i64 (a -ℤ b) -ℤ c) ≡ i64 (a -ℤ (b +ℤ c))
i64_lem a b c = i64_cong (i64 (a -ℤ b) -ℤ c) (a -ℤ (b +ℤ c)) (
    omega (
      arith,
      i64_mod (a -ℤ b),
      -ℤ_parts (i64 (a -ℤ b)) c,
      -ℤ_parts a b,
      -ℤ_parts a (b +ℤ c),
      +ℤ_parts b c,
    ))

pub fetch_account_lem :
    (user now : ℕ) (t : Tables)
    → let (u, a) = fetch_account user now t in
      (lookup user u.accounts ≡ some a)
      × (u.ledger ≡ t.ledger)
      × (u.budgets ≡ t.budgets)
      × (a.balance ≡ balance_of user t)
      × ((id : ℕ) → balance_of id u ≡ balance_of id t)
unfolding fetch_account balance_of new_account
fetch_account_lem user now t = elim (Option-cases (lookup user t.accounts)) [
  | inr (a, h) ↦ rw (h, fetch_account) (h, refl, refl, rw (h, balance_of) refl, λ id. refl)
  | inl h ↦
      rw (h, fetch_account)
        (
          ground (arith, lookup-insert user user (new_account now) t.accounts),
          refl,
          refl,
          rw (h, balance_of) refl,
          λ id. ground (arith, lookup-insert user id (new_account now) t.accounts),
        )
]

abbrev pub txn_of : String → Settlement → String
txn_of fresh s = if s.txn == "" then fresh else s.txn

-- Of a transaction that the ledger holds, and of one that it does not.
pub settle_cases :
    (fresh : String) (now : ℕ) (s : Settlement) (t : Tables)
    → let (u, a) = fetch_account s.account now t in
      let after = i64 (a.balance -ℤ s.cost) in
      let (v, r) = settle fresh now s t in
      ((has_txn (txn_of fresh s) t.ledger ≡ true) × (v ≡ u) × (r.was_idempotent ≡ true))
      ⊎ ((has_txn (txn_of fresh s) t.ledger ≡ false)
          × (v ≡ record u {
            accounts = insert s.account (record a { balance = after; updated_at = now }) u.accounts;
            ledger = entry_of (txn_of fresh s) now s a.balance after ∷ u.ledger;
            budgets = consume_all s.account s.torrent s.cost u.budgets;
          })
          × (r.was_idempotent ≡ false))
unfolding settle
settle_cases fresh now s t =
    let same = (fetch_account_lem s.account now t).1 in
    elim (Bool-cases (has_txn (txn_of fresh s) t.ledger)) [
      | inl h ↦ inl (h, rw (same, h, settle) refl, rw (same, h, settle) refl)
      | inr h ↦ inr (h, rw (same, h, settle) refl, rw (same, h, settle) refl)
    ]

posted_lem :
    (id now : ℕ) (e : LedgerEntry) (a : Account) (u : Tables) (bs : List Budget)
    (es : List LedgerEntry)
    → (e.account_id ≡ id → a.balance ≡ i64 (default_starting_balance -ℤ spent id es))
    → balance_of id u ≡ i64 (default_starting_balance -ℤ spent id es)
    → let b = record a { balance = i64 (a.balance -ℤ e.charge); updated_at = now } in
      balance_of id
        (record { accounts = insert e.account_id b u.accounts; ledger = e ∷ es; budgets = bs })
      ≡ i64 (default_starting_balance -ℤ spent id (e ∷ es))
unfolding balance_of spent
posted_lem id now e a u bs es h k =
    let b = record a { balance = i64 (a.balance -ℤ e.charge); updated_at = now } in
    let read = lookup-insert e.account_id id b u.accounts in
    elim (Bool-cases (e.account_id == id)) [
      | inl hit ↦
          rw (read, balance_of, hit, h ((nat_eq.equal_iff e.account_id id).0 hit))
            (i64_lem default_starting_balance (spent id es) e.charge)
      | inr miss ↦ rw (read, balance_of, miss) k
    ]

-- Settling anything, for any account, keeps every balance at the starting balance less what the ledger
-- charges the account, as an int64: also when the transaction is in the ledger already, and when
-- the account is made by the settlement.
pub settle-IsBalanced :
    (fresh : String) (now : ℕ) (s : Settlement) (t : Tables)
    → IsBalanced t
    → IsBalanced (settle fresh now s t).0
unfolding IsBalanced entry_of
settle-IsBalanced fresh now s t b id =
    let (u, a) = fetch_account s.account now t in
    let (found, ledger, budgets, balance, others) = fetch_account_lem s.account now t in
    elim (settle_cases fresh now s t) [
      | inl (_, v, _) ↦ rw (v, ledger) (others id ∙ b id)
      | inr (_, v, _) ↦
          rw (v, ledger)
            (posted_lem id now (entry_of (txn_of fresh s) now s a.balance _) a u _ t.ledger
              (λ same. balance ∙ ap (λ j. balance_of j t) same ∙ b id) (others id ∙ b id))
    ]

fetch_known :
    (user now : ℕ) (t : Tables) (a : Account)
    → lookup user t.accounts ≡ some a
    → fetch_account user now t ≡ (t, a)
unfolding fetch_account
fetch_known user now t a h = rw (h, fetch_account) refl

-- The account and the transaction are in the tables after a settlement.
settled_lem :
    (fresh : String) (now : ℕ) (s : Settlement) (t : Tables)
    → let v = (settle fresh now s t).0 in
      ((a : Account) × (lookup s.account v.accounts ≡ some a))
      × (has_txn (txn_of fresh s) v.ledger ≡ true)
unfolding has_txn any entry_of
settled_lem fresh now s t =
    let (u, a) = fetch_account s.account now t in
    let (found, ledger, _, _, _) = fetch_account_lem s.account now t in
    let b = record a { balance = i64 (a.balance -ℤ s.cost); updated_at = now } in
    elim (settle_cases fresh now s t) [
      | inl (h, v, _) ↦ rw v ((a, found), rw ledger h)
      | inr (_, v, _) ↦ rw v (
        (b, ground (arith, lookup-insert s.account s.account b u.accounts)),
        ground (arith, string_eq.equal_iff (txn_of fresh s) (txn_of fresh s)),
      )
    ]

-- To settle a transaction that has an id a second time, at whatever time, is to change nothing: no
-- balance, no budget and no line of the ledger; and the result says so.
pub settle_again :
    (fresh fresh' : String) (now later : ℕ) (s : Settlement) (t : Tables)
    → (s.txn == "") ≡ false
    → let once = (settle fresh now s t).0 in
      ((settle fresh' later s once).0 ≡ once)
      × ((settle fresh' later s once).1.was_idempotent ≡ true)
settle_again fresh fresh' now later s t h =
    let once = (settle fresh now s t).0 in
    let ((a, known), posted) = settled_lem fresh now s t in
    elim (settle_cases fresh' later s once) [
      | inl (_, v, r) ↦ (v ∙ ap (λ x. x.0) (fetch_known s.account later once a known), r)
      | inr (new, _, _) ↦ ground (arith, posted)
    ]

-- The lost update of a priority change: a settlement that others make after the row is read is undone
-- in the account's balance, though its line stands in the ledger.
pub set_user_priority_loses :
    (fresh : String) (pc : ℤ) (now later : ℕ) (s : Settlement) (t : Tables) (a : Account)
    → lookup s.account t.accounts ≡ some a
    → has_txn (txn_of fresh s) t.ledger ≡ false
    → is_valid_class pc ≡ true
    → let v = (set_user_priority (λ u. (settle fresh now s u).0) s.account pc later t).0 in
      (balance_of s.account v ≡ a.balance)
      × (v.ledger
          ≡ entry_of (txn_of fresh s) now s a.balance (i64 (a.balance -ℤ s.cost)) ∷ t.ledger)
unfolding set_user_priority balance_of with_class
set_user_priority_loses fresh pc now later s t a h new ok =
    let u = (settle fresh now s t).0 in
    let b = with_class pc later (some a) in
    rw (ok, set_user_priority, h)
      (
        ground (arith, lookup-insert s.account s.account b u.accounts),
        (elim (settle_cases fresh now s t) [
          | inl (old, _, _) ↦ ground (arith, new)
          | inr (_, v, _) ↦ rw (v, fetch_known s.account now t a h) refl
        ]),
      )
