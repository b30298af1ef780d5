-- ===== src/Tests/Stores/Idempotency.antt =====
-- virtualserver/store/idempotency_store.go: an answer after another one and an expiry.
use ocelot.Prelude.{◌≡◌, refl, some, String, [], ◌∷◌, arith, string_eq}
use ocelot.Prelude.Int.{pos}
use ocelot.Prelude.Map.{lookup, none_left, one_more}
use ocelot.VirtualServer.Store.Idempotency.{
  Table, IdempotencyRecord, check_idempotency, store_idempotency,
}
use ocelot.VirtualServer.Store.Idempotency.Answers.{Call, run, check_idempotency-stored}

-- A hash for the test.
abbrev hash_of : String → String
hash_of key = key

abbrev created : IdempotencyRecord
created = record { response = "created"; status_code = pos 201 }

abbrev refused : IdempotencyRecord
refused = record { response = "refused"; status_code = pos 409 }

-- A row that has expired.
abbrev rows : Table
rows = ("old", record { answer = refused; created_at = 0; expires_at = 86400 }) ∷ []

check_idempotency-stored_example :
    check_idempotency hash_of 100500 "k" (
      run hash_of
        (Call.stores 90100 "other" refused ∷ Call.expires 90200 ∷ [])
        (store_idempotency hash_of 90000 "k" created rows))
    ≡ some created
unfolding lookup
check_idempotency-stored_example =
    check_idempotency-stored hash_of 100500 90000 "k" created
      (Call.stores 90100 "other" refused ∷ Call.expires 90200 ∷ []) rows (one_more refl none_left)
      ((omega arith, refl), (omega arith, tt))
