-- ===== src/Prelude/Lists.antt =====
-- Lists measured by native numbers, under the library's names.
use Prim.Native.Nat.{ℕ, suc, ◌+◌, ◌≤◌}
use mathlib.Core.Path.{◌≡◌, refl}
use mathlib.Core.Logic.{◌↔◌, ◌⊎◌, inl, inr}
use mathlib.Core.Bool.{Bool, true, false, ◌||◌, ◌&&◌}
use mathlib.Core.List.{List, [], ◌∷◌, ◌++◌}
use native.Mathlib.Omega.{arith}
use ocelot.Prelude.Tests.{if◌then◌else◌, Comparable, ◌==◌}

module _ {ℓ} {A : Type ℓ} where
  abbrev pub length : List A → ℕ
  length [] = 0
  length (x ∷ xs) = suc (length xs)

  pub length-append : (xs ys : List A) → length (xs ++ ys) ≡ length xs + length ys
  length-append [] ys = omega arith
  length-append (x ∷ xs) ys = omega (arith, length-append xs ys)

  pub append-eq-nil : (xs ys : List A) → xs ++ ys ≡ [] → (xs ≡ []) × (ys ≡ [])
  append-eq-nil [] ys h = (refl, h)
  append-eq-nil (x ∷ xs) ys h = cc

  -- The elements that pass a Boolean test, in order.
  unfoldable pub select : (A → Bool) → List A → List A
  select p [] = []
  select p (x ∷ xs) = let rest = select p xs in if p x then x ∷ rest else rest

  unfoldable pub any : (A → Bool) → List A → Bool
  any p [] = false
  any p (x ∷ xs) = p x || any p xs

  pub length-select-le : (p : A → Bool) (xs : List A) → length (select p xs) ≤ length xs
  unfolding select
  length-select-le p [] = omega arith
  length-select-le p (x ∷ xs) = ground (arith, length-select-le p xs)

-- A predicate that every element has, as the tuple of its instances.
abbrev pub All {ι κ} : {E : Type ι} → (E → Type κ) → List E → Type κ
All Has (first ∷ others) = Has first × All Has others
All Has [] = Unit

-- A predicate that some element has.
pub data Any {ι κ} {E : Type ι} (Has : E → Type κ) : List E → Type (ι ⊔ κ) where
  at_first : {first : E} {others : List E} → Has first → Any Has (first ∷ others)
  at_other : {first : E} {others : List E} → Any Has others → Any Has (first ∷ others)

module _ {ι κ} {E : Type ι} (P : E → Type κ) where
  pub All-select : (p : E → Bool) (xs : List E) → All P xs → All P (select p xs)
  unfolding select
  All-select p [] h = tt
  All-select p (x ∷ xs) (hx, hs) =
      elim (p x) as (λ b. All P (if b then x ∷ select p xs else select p xs)) [
        | true ↦ (hx, All-select p xs hs)
        | false ↦ All-select p xs hs
      ]

  pub Any-split : {x : E} {xs : List E} → Any P (x ∷ xs) → P x ⊎ Any P xs
  Any-split (at_first h) = inl h
  Any-split (at_other a) = inr a

  pub Any-map {μ} : (Q : E → Type μ) {xs : List E} → ((x : E) → P x → Q x) → Any P xs → Any Q xs
  Any-map Q f (at_first h) = at_first (f _ h)
  Any-map Q f (at_other a) = at_other (Any-map Q f a)

  pub All-map {μ} : (Q : E → Type μ) (xs : List E) → ((x : E) → P x → Q x) → All P xs → All Q xs
  All-map Q [] f h = tt
  All-map Q (x ∷ xs) f (hx, hs) = (f x hx, All-map Q xs f hs)

-- Go's `==` on strings and slices of comparable elements, element by element.
module _ {ℓ} {A : Type ℓ} ⦃e : Comparable A⦄ where
  abbrev pub list_beq : List A → List A → Bool
  list_beq [] [] = true
  list_beq (x ∷ xs) (y ∷ ys) = x == y && list_beq xs ys
  list_beq _ _ = false

  pub list_beq_iff : (xs ys : List A) → (list_beq xs ys ≡ true) ↔ (xs ≡ ys)
  list_beq_iff [] [] = (λ h. refl, λ h. refl)
  list_beq_iff [] (y ∷ ys) = ground arith
  list_beq_iff (x ∷ xs) [] = ground arith
  list_beq_iff (x ∷ xs) (y ∷ ys) = ground (arith, e.equal_iff x y, list_beq_iff xs ys)

  instance abbrev pub list_eq : Comparable (List A)
  list_eq = record { equal = list_beq; equal_iff = list_beq_iff }
