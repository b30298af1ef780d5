-- ===== src/Prelude/Map.antt =====
-- Go's maps, as association lists in which a key stands at most once.
use Prim.Native.Nat.{suc}
use mathlib.Core.Path.{◌≡◌, refl, subst}
use mathlib.Core.Logic.{inl, inr}
use mathlib.Core.Bool.{Bool, true}
use mathlib.Core.Option.{Option, none, some}
use mathlib.Core.List.{List, [], ◌∷◌}
use native.Mathlib.Omega.{arith}
use ocelot.Prelude.Tests.{Comparable, ◌==◌, if◌then◌else◌, Bool-cases, is_some}
use ocelot.Prelude.Lists.{length, any, All}
use ocelot.Prelude.Int.{ℤ, pos, ◌+ℤ◌, int_laws, parts_of_eq}

abbrev pub Map {ℓ κ} : Type ℓ → Type κ → Type (ℓ ⊔ κ)
Map K V = List (K × V)

-- The keys of a Go map are distinct.
module _ {ℓ κ} {K : Type ℓ} {V : Type κ} ⦃e : Comparable K⦄ where
  unfoldable pub delete : K → Map K V → Map K V
  delete gone [] = []
  delete gone ((key, val) ∷ more) =
      let kept = delete gone more in if key == gone then kept else (key, val) ∷ kept

  unfoldable pub lookup : K → Map K V → Option V
  lookup asked [] = none
  lookup asked ((key, val) ∷ more) = if key == asked then some val else lookup asked more

  pub data Distinct : Map K V → Type (ℓ ⊔ κ) where
    none_left : Distinct []
    one_more :
        {k : K} {v : V} {m : Map K V} → lookup k m ≡ none → Distinct m → Distinct ((k, v) ∷ m)

  -- A write replaces the key's entry where it stands, or comes last.
  unfoldable pub insert : K → V → Map K V → Map K V
  insert at new [] = (at, new) ∷ []
  insert at new ((key, old) ∷ more) =
      if key == at then (at, new) ∷ more else (key, old) ∷ insert at new more

  pub lookup-insert :
      (at asked : K) (new : V) (m : Map K V)
      → lookup asked (insert at new m) ≡ (if at == asked then some new else lookup asked m)
  unfolding lookup insert
  lookup-insert at asked new [] = refl
  lookup-insert at asked new ((key, old) ∷ more) = ground (
    arith,
    lookup-insert at asked new more,
    e.equal_iff at asked,
    e.equal_iff key asked,
    e.equal_iff key at,
  )

  pub lookup-delete :
      (k j : K) (m : Map K V) → lookup j (delete k m) ≡ (if k == j then none else lookup j m)
  unfolding lookup delete
  lookup-delete k j [] = ground arith
  lookup-delete k j ((i, w) ∷ m) =
      ground (arith, e.equal_iff k j, e.equal_iff i k, e.equal_iff i j, lookup-delete k j m)

  pub lookup-insert_self : (k : K) (v : V) (m : Map K V) → lookup k (insert k v m) ≡ some v
  lookup-insert_self k v m = rw (lookup-insert k k v m, (e.equal_iff k k).1 refl)

  pub lookup-delete_self : (k : K) (m : Map K V) → lookup k (delete k m) ≡ none
  lookup-delete_self k m = rw (lookup-delete k k m, (e.equal_iff k k).1 refl)

  pub length-insert :
      (k : K) (v : V) (m : Map K V)
      → length (insert k v m) ≡ (if is_some (lookup k m) then length m else suc (length m))
  unfolding lookup insert
  length-insert k v [] = refl
  length-insert k v ((j, w) ∷ m) = ground (arith, length-insert k v m)

  pub delete_absent : (k : K) (m : Map K V) → lookup k m ≡ none → delete k m ≡ m
  unfolding lookup delete
  delete_absent k [] h = refl
  delete_absent k ((j, w) ∷ m) h = ground (arith, delete_absent k m)

  pub length-delete :
      (k : K) (m : Map K V)
      → Distinct m
      → length m ≡ (if is_some (lookup k m) then suc (length (delete k m)) else length (delete k m))
  unfolding lookup delete
  length-delete k [] d = refl
  length-delete k ((j, w) ∷ m) (one_more fresh d) =
      ground (arith, e.equal_iff j k, length-delete k m d, delete_absent j m)

  lookup_nil : (k : K) → lookup k [] ≡ none
  unfolding lookup
  lookup_nil k = refl

  pub Distinct-insert : (k : K) (v : V) (m : Map K V) → Distinct m → Distinct (insert k v m)
  unfolding insert
  Distinct-insert k v [] d = one_more (lookup_nil k) none_left
  Distinct-insert k v ((j, w) ∷ m) (one_more fresh d) = elim (Bool-cases (j == k)) [
    | inl hit ↦ rw hit (one_more (rw (← (e.equal_iff j k).0 hit) fresh) d)
    | inr miss ↦ rw miss (
        one_more (ground (arith, e.equal_iff j k, e.equal_iff k j, lookup-insert k j v m))
          (Distinct-insert k v m d))
  ]

  pub Distinct-delete : (k : K) (m : Map K V) → Distinct m → Distinct (delete k m)
  unfolding delete
  Distinct-delete k [] d = d
  Distinct-delete k ((j, w) ∷ m) (one_more fresh d) = elim (Bool-cases (j == k)) [
    | inl hit ↦ rw hit (Distinct-delete k m d)
    | inr miss ↦ rw miss (one_more (ground (arith, lookup-delete k j m)) (Distinct-delete k m d))
  ]

abbrev pub amount {κ} : {V : Type κ} → (V → ℤ) → Option V → ℤ
amount f none = pos 0
amount f (some v) = f v

-- The sum of a quantity over the values of a map.
module _ {ℓ κ} {K : Type ℓ} {V : Type κ} where
  pub total : (V → ℤ) → Map K V → ℤ
  total f [] = pos 0
  total f ((k, v) ∷ m) = f v +ℤ total f m

module _ {ℓ κ} {K : Type ℓ} {V : Type κ} ⦃e : Comparable K⦄ where
  -- A write adds the new value's quantity and takes the overwritten one's away.
  pub total-insert :
      (f : V → ℤ) (k : K) (v : V) (m : Map K V)
      → total f (insert k v m) +ℤ amount f (lookup k m) ≡ total f m +ℤ f v
  unfolding total insert lookup
  total-insert f k v [] = omega int_laws
  total-insert f k v ((j, w) ∷ m) = elim (Bool-cases (j == k)) [
    | inl hit ↦ rw (hit, lookup, insert) (omega int_laws)
    | inr miss ↦ rw (miss, lookup, insert) (omega (int_laws, parts_of_eq (total-insert f k v m)))
  ]

-- A test of the entries, under a write at a new key, and at a key whose entry tests alike.
module _ {ℓ κ} {K : Type ℓ} {V : Type κ} ⦃e : Comparable K⦄ (p : K × V → Bool) where
  pub any-insert_self :
      (k : K) (v : V) (m : Map K V) → p (k, v) ≡ true → any p (insert k v m) ≡ true
  unfolding any insert
  any-insert_self k v [] h = rw h
  any-insert_self k v ((j, w) ∷ m) h = ground (arith, any-insert_self k v m)

  pub any-insert_fresh :
      (k : K) (v : V) (m : Map K V)
      → lookup k m ≡ none
      → any p m ≡ true
      → any p (insert k v m) ≡ true
  unfolding any insert lookup
  any-insert_fresh k v [] h a = cc
  any-insert_fresh k v ((j, w) ∷ m) h a = ground (arith, any-insert_fresh k v m)

  pub any-insert_alike :
      (k : K) (v w : V) (m : Map K V)
      → lookup k m ≡ some w
      → ((j : K) → (j == k) ≡ true → p (k, v) ≡ p (j, w))
      → any p (insert k v m) ≡ any p m
  unfolding any insert lookup
  any-insert_alike k v w [] h a = cc
  any-insert_alike k v w ((j, u) ∷ m) h a = ground (arith, a j, any-insert_alike k v w m)

-- What every entry has, under the operations.
module _ {ℓ κ μ} {K : Type ℓ} {V : Type κ} ⦃e : Comparable K⦄ (P : K × V → Type μ) where
  pub All-insert : (k : K) (v : V) (m : Map K V) → P (k, v) → All P m → All P (insert k v m)
  unfolding insert
  All-insert k v [] h a = (h, tt)
  All-insert k v ((j, w) ∷ m) h (a, rest) = elim (Bool-cases (j == k)) [
    | inl hit ↦ rw hit (h, rest)
    | inr miss ↦ rw miss (a, All-insert k v m h rest)
  ]

  pub All-delete : (k : K) (m : Map K V) → All P m → All P (delete k m)
  unfolding delete
  All-delete k [] a = tt
  All-delete k ((j, w) ∷ m) (a, rest) = elim (Bool-cases (j == k)) [
    | inl hit ↦ rw hit (All-delete k m rest)
    | inr miss ↦ rw miss (a, All-delete k m rest)
  ]

  pub All-lookup : (k : K) (m : Map K V) {v : V} → All P m → lookup k m ≡ some v → P (k, v)
  unfolding lookup
  All-lookup k [] a h = cc
  All-lookup k ((j, w) ∷ m) {v} (a, rest) h = elim (Bool-cases (j == k)) [
    | inl hit ↦
        let same : w ≡ v = cc (rw hit at h) in
        subst (λ i. P (i, v)) ((e.equal_iff j k).0 hit) (subst (λ x. P (j, x)) same a)
    | inr miss ↦ All-lookup k m rest (rw miss at h)
  ]
