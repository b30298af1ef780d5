-- ===== src/VirtualServer/Store/Idempotency.antt =====
-- virtualserver/store/idempotency_store.go: the responses that are kept for the keys of requests.
-- The SHA-256 of a key is a parameter. Times are seconds; the time of a call is an argument.
pub mod Answers
use ocelot.Prelude.{
  ℕ, ◌+◌, Bool, Option, none, some, String, if◌then◌else◌, List, [], ◌∷◌, ltb, string_eq,
}
use ocelot.Prelude.Int.{ℤ}
use ocelot.Prelude.Map.{Map, lookup, insert}

pub record IdempotencyRecord : Type 0 where
  pub response : String
  pub status_code : ℤ

-- A row: the response, and when it expires.
pub record Row : Type 0 where
  pub answer : IdempotencyRecord
  pub created_at : ℕ
  pub expires_at : ℕ

abbrev pub Table : Type 0
Table = Map String Row

-- 24 hours.
abbrev pub idempotency_ttl : ℕ
idempotency_ttl = 86400

-- The row that a key has, unless it has expired.
unfoldable pub current : ℕ → Option Row → Option IdempotencyRecord
current now none = none
current now (some row) = if ltb (Row.expires_at row) now then none else some (Row.answer row)

-- `DELETE … WHERE expires_at < ?`
unfoldable pub expire_idempotency_keys : ℕ → Table → Table
expire_idempotency_keys now [] = []
expire_idempotency_keys now ((hash, row) ∷ more) =
    let kept = expire_idempotency_keys now more in
    if ltb (Row.expires_at row) now then kept else (hash, row) ∷ kept

module _ (hash_key : String → String) where
  unfoldable pub check_idempotency : ℕ → String → Table → Option IdempotencyRecord
  check_idempotency now key t = current now (lookup (hash_key key) t)

  -- `INSERT OR REPLACE`
  unfoldable pub store_idempotency : ℕ → String → IdempotencyRecord → Table → Table
  store_idempotency now key answer =
      insert (hash_key key)
        (record { answer = answer; created_at = now; expires_at = now + idempotency_ttl })
