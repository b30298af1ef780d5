-- ===== src/VirtualServer/Store/Idempotency/Answers.antt =====
-- virtualserver/store/idempotency_store.go: what CheckIdempotency answers after other calls.
use ocelot.Prelude.{
  ℕ, ◌≡◌, ◌≤◌, ◌+◌, refl, false, none, some, String, if◌then◌else◌, List, [], ◌∷◌, ltb, arith,
  string_eq, inl, inr, Bool-cases, All, ◌==◌,
}
use ocelot.Prelude.Map.{
  lookup, lookup-insert, lookup-insert_self, Distinct, one_more, Distinct-insert,
}
use ocelot.VirtualServer.Store.Idempotency.{
  Table, Row, IdempotencyRecord, idempotency_ttl, current, expire_idempotency_keys,
  check_idempotency, store_idempotency,
}

-- An expiry removes no row that is missing, and only rows that have expired.
lookup-expire_missing :
    (n : ℕ) (h : String) (t : Table)
    → lookup h t ≡ none
    → lookup h (expire_idempotency_keys n t) ≡ none
unfolding lookup expire_idempotency_keys
lookup-expire_missing n h [] miss = refl
lookup-expire_missing n h ((i, row) ∷ t) miss = ground (arith, lookup-expire_missing n h t)

Distinct-expire : (n : ℕ) (t : Table) → Distinct t → Distinct (expire_idempotency_keys n t)
unfolding expire_idempotency_keys
Distinct-expire n [] d = d
Distinct-expire n ((i, row) ∷ t) (one_more fresh d) =
    elim (Bool-cases (ltb (Row.expires_at row) n)) [
      | inl gone ↦ rw gone (Distinct-expire n t d)
      | inr kept ↦ rw kept (one_more (lookup-expire_missing n i t fresh) (Distinct-expire n t d))
    ]

current-expire :
    (n now : ℕ) (h : String) (t : Table)
    → n ≤ now
    → Distinct t
    → current now (lookup h (expire_idempotency_keys n t)) ≡ current now (lookup h t)
unfolding lookup expire_idempotency_keys current
current-expire n now h [] le d = refl
current-expire n now h ((i, row) ∷ t) le (one_more fresh d) =
    ground
      (arith, string_eq.equal_iff i h, current-expire n now h t le d, lookup-expire_missing n h t)

-- The calls that change the table, each with its time.
pub data Call : Type 0 where
  stores : ℕ → String → IdempotencyRecord → Call
  expires : ℕ → Call

module _ (hash_key : String → String) where
  unfoldable pub step : Call → Table → Table
  step (stores now key answer) = store_idempotency hash_key now key answer
  step (expires now) = expire_idempotency_keys now

  unfoldable pub run : List Call → Table → Table
  run [] t = t
  run (call ∷ more) t = run more (step call t)

  -- The call is made at a time up to `now`, and stores no answer under the key's hash.
  abbrev pub Leaves : ℕ → String → Call → Type 0
  Leaves now key (stores at other answer) = (at ≤ now) × ((hash_key other == hash_key key) ≡ false)
  Leaves now key (expires at) = at ≤ now

  check-step :
      (now : ℕ) (key : String) (call : Call) (t : Table)
      → Leaves now key call
      → Distinct t
      → check_idempotency hash_key now key (step call t) ≡ check_idempotency hash_key now key t
  unfolding step check_idempotency store_idempotency current
  check-step now key (stores at other answer) t (le, apart) d = rw (lookup-insert, apart) refl
  check-step now key (expires at) t le d = current-expire at now (hash_key key) t le d

  Distinct-step : (call : Call) (t : Table) → Distinct t → Distinct (step call t)
  unfolding step store_idempotency
  Distinct-step (stores at other answer) t d = Distinct-insert (hash_key other) _ t d
  Distinct-step (expires at) t d = Distinct-expire at t d

  check-run :
      (now : ℕ) (key : String) (calls : List Call) (t : Table)
      → All (Leaves now key) calls
      → Distinct t
      → check_idempotency hash_key now key (run calls t) ≡ check_idempotency hash_key now key t
  unfolding run
  check-run now key [] t ls d = refl
  check-run now key (call ∷ more) t (l, ls) d =
      rw
        (
          check-run now key more (step call t) ls (Distinct-step call t d),
          check-step now key call t l d,
        )
        refl

  stored :
      (now at : ℕ) (key : String) (answer : IdempotencyRecord) (t : Table)
      → check_idempotency hash_key now key (store_idempotency hash_key at key answer t)
        ≡ (if ltb (at + idempotency_ttl) now then none else some answer)
  unfolding check_idempotency store_idempotency current
  stored now at key answer t = rw (lookup-insert_self (hash_key key) _ t) refl

  -- After an answer is stored, and whatever calls come then up to `now` that store nothing under the
  -- hash of its key (answers for other keys, expiries), CheckIdempotency gives this answer for the
  -- key, whole, until 24 hours have passed, and then none.
  pub check_idempotency-stored :
      (now at : ℕ) (key : String) (answer : IdempotencyRecord) (calls : List Call) (t : Table)
      → Distinct t
      → All (Leaves now key) calls
      → check_idempotency hash_key now key (run calls (store_idempotency hash_key at key answer t))
        ≡ (if ltb (at + idempotency_ttl) now then none else some answer)
  unfolding step
  check_idempotency-stored now at key answer calls t d ls =
      rw (check-run now key calls _ ls (Distinct-step (stores at key answer) t d))
        (stored now at key answer t)
