-- ===== src/Tracker/Whitelist/Trie.antt =====
-- The trie answers as the list does.
use ocelot.Prelude.{
  ℕ, ◌≡◌, refl, Bool, true, false, ◌&&◌, ◌||◌, arith, if◌then◌else◌, ◌==◌, nat_eq, List, [], ◌∷◌,
  any,
}
use ocelot.Tracker.Whitelist.{has_prefix, is_allowed}

mutual
  pub data TrieNode : Type 0 where
    node : Bool → Children → TrieNode

  pub data Children : Type 0 where
    no_more : Children
    child : ℕ → TrieNode → Children → Children

unfoldable pub new_trie : TrieNode
new_trie = node false no_more

-- Applies a function to the child of a byte, made first if there is none.
unfoldable pub at_child : ℕ → (TrieNode → TrieNode) → Children → Children
unfolding new_trie
at_child c f no_more = child c (f new_trie) no_more
at_child c f (child d t cs) = if d == c then child d (f t) cs else child d t (at_child c f cs)

unfoldable pub add_prefix : List ℕ → TrieNode → TrieNode
unfolding at_child
add_prefix [] (node b cs) = node true cs
add_prefix (c ∷ p) (node b cs) = node b (at_child c (add_prefix p) cs)

-- The walk of `IsAllowed` from a node.
unfoldable mutual
  pub walk : List ℕ → TrieNode → Bool
  walk [] (node b cs) = b
  walk (c ∷ id) (node b cs) = if b then true else walk_child c id cs

  pub walk_child : ℕ → List ℕ → Children → Bool
  walk_child c id no_more = false
  walk_child c id (child d t cs) =
      let rest = walk_child c id cs in if d == c then walk id t else rest

unfoldable pub trie_allows : TrieNode → List ℕ → Bool
trie_allows (node b no_more) id = true
trie_allows (node b (child d t cs)) id = walk id (node b (child d t cs))

unfoldable pub add_all : List (List ℕ) → TrieNode → TrieNode
add_all [] t = t
add_all (p ∷ ps) t = add_all ps (add_prefix p t)

unfoldable pub build_trie_from_slice : List (List ℕ) → TrieNode
unfolding add_all new_trie
build_trie_from_slice ps = add_all ps new_trie

walk-new_trie : (id : List ℕ) → walk id new_trie ≡ false
unfolding walk new_trie
walk-new_trie [] = refl
walk-new_trie (c ∷ id) = refl

walk_child-at_child :
    (f : TrieNode → TrieNode) (q : Bool) (id : List ℕ) (c d : ℕ) (cs : Children)
    → ((t : TrieNode) → walk id (f t) ≡ walk id t || q)
    → walk_child d id (at_child c f cs) ≡ walk_child d id cs || (c == d && q)
unfolding walk at_child
walk_child-at_child f q id c d no_more h = ground (arith, h new_trie, walk-new_trie id)
walk_child-at_child f q id c d (child e t cs) h =
    ground (arith, h t, walk_child-at_child f q id c d cs h)

walk-add_prefix :
    (p id : List ℕ) (t : TrieNode) → walk id (add_prefix p t) ≡ walk id t || has_prefix p id
unfolding walk add_prefix has_prefix
walk-add_prefix [] [] (node b cs) = ground arith
walk-add_prefix [] (d ∷ id) (node b cs) = ground arith
walk-add_prefix (c ∷ p) [] (node b cs) = ground arith
walk-add_prefix (c ∷ p) (d ∷ id) (node b cs) =
    ground
      (arith, walk_child-at_child (add_prefix p) (has_prefix p id) id c d cs (walk-add_prefix p id))

walk-add_all :
    (ps : List (List ℕ)) (id : List ℕ) (t : TrieNode)
    → walk id (add_all ps t) ≡ walk id t || any (λ q. has_prefix q id) ps
unfolding add_all any
walk-add_all [] id t = ground arith
walk-add_all (p ∷ ps) id t =
    ground (arith, walk-add_all ps id (add_prefix p t), walk-add_prefix p id t)

abbrev is_bare : TrieNode → Bool
is_bare (node b no_more) = true
is_bare (node b (child d t cs)) = false

abbrev all_empty : List (List ℕ) → Bool
all_empty [] = true
all_empty ([] ∷ ps) = all_empty ps
all_empty ((c ∷ p) ∷ ps) = false

trie_allows_iff : (id : List ℕ) (t : TrieNode) → trie_allows t id ≡ is_bare t || walk id t
unfolding trie_allows
trie_allows_iff id (node b no_more) = refl
trie_allows_iff id (node b (child d t cs)) = refl

is_bare-at_child :
    (b : Bool) (c : ℕ) (f : TrieNode → TrieNode) (cs : Children)
    → is_bare (node b (at_child c f cs)) ≡ false
unfolding at_child
is_bare-at_child b c f no_more = refl
is_bare-at_child b c f (child d t cs) = ground arith

is_bare-add_all :
    (ps : List (List ℕ)) (t : TrieNode) → is_bare (add_all ps t) ≡ is_bare t && all_empty ps
unfolding add_all add_prefix
is_bare-add_all [] t = ground arith
is_bare-add_all ([] ∷ ps) (node b cs) = ground (arith, is_bare-add_all ps (node true cs))
is_bare-add_all ((c ∷ p) ∷ ps) (node b cs) = ground (
  arith,
  is_bare-add_all ps (node b (at_child c (add_prefix p) cs)),
  is_bare-at_child b c (add_prefix p) cs,
)

all_empty_allows :
    (ps : List (List ℕ)) (id : List ℕ)
    → all_empty ps || any (λ q. has_prefix q id) ps ≡ is_allowed ps id
unfolding is_allowed any has_prefix
all_empty_allows [] id = refl
all_empty_allows ([] ∷ ps) id = ground arith
all_empty_allows ((c ∷ p) ∷ ps) id = ground arith

-- The trie built from a list of prefixes allows exactly the peer ids that the list allows, the empty
-- list, empty prefixes and ids shorter than a prefix included.
pub trie_allows-build :
    (ps : List (List ℕ)) (id : List ℕ)
    → trie_allows (build_trie_from_slice ps) id ≡ is_allowed ps id
unfolding build_trie_from_slice
trie_allows-build ps id = ground (
  arith,
  trie_allows_iff id (add_all ps new_trie),
  is_bare-add_all ps new_trie,
  walk-add_all ps id new_trie,
  walk-new_trie id,
  all_empty_allows ps id,
)
