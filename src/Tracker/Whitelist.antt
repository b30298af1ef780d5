-- ===== src/Tracker/Whitelist.antt =====
-- The list of the clients that may announce: `Whitelist` of tracker/types.go, and the trie of
-- tracker/optimize.go that stands in for it. Strings are lists of bytes.
pub mod Trie
use ocelot.Prelude.{
  ℕ, ◌≡◌, refl, Bool, true, false, ◌&&◌, ◌||◌, not, arith, if◌then◌else◌, ◌==◌, nat_eq, list_eq,
  List, [], ◌∷◌, ◌++◌, any, Comparable, ◌↔◌,
}

-- `peerID[:len(prefix)] == prefix`, for an id that is long enough.
unfoldable pub has_prefix : List ℕ → List ℕ → Bool
has_prefix [] id = true
has_prefix (c ∷ p) [] = false
has_prefix (c ∷ p) (b ∷ id) = c == b && has_prefix p id

unfoldable pub is_allowed : List (List ℕ) → List ℕ → Bool
unfolding has_prefix
is_allowed [] id = true
is_allowed (p ∷ ps) id = any (λ q. has_prefix q id) (p ∷ ps)

unfoldable pub add : List ℕ → List (List ℕ) → List (List ℕ)
add p ps = if any (λ q. q == p) ps then ps else ps ++ (p ∷ [])

unfoldable pub remove : List ℕ → List (List ℕ) → List (List ℕ)
remove p [] = []
remove p (q ∷ ps) = let rest = remove p ps in if q == p then rest else q ∷ rest
