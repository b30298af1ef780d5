-- ===== src/Prelude/Bytes.antt =====
-- Slices of bytes and the big-endian words of Go's encoding/binary. A byte is a number below 256.
use Prim.Native.Nat.{ℕ, zero, suc, ◌+◌, ◌*◌, ◌/◌, ◌%◌, ◌^◌, ◌<◌}
use Prim.Native.String.{String}
use Prim.Native.Char.{code}
use mathlib.Core.Path.{◌≡◌, refl, ap, sym, ◌∙◌}
use mathlib.Core.List.{List, [], ◌∷◌, ◌++◌}
use native.Mathlib.Omega.{arith}
use ocelot.Prelude.Lists.{length}

-- The bytes of an ASCII text.
abbrev pub codes : String → List ℕ
codes String.[] = []
codes (String.◌∷◌ c s) = code c ∷ codes s

module _ {ℓ} {A : Type ℓ} where
  unfoldable pub take : ℕ → List A → List A
  take zero xs = []
  take (suc n) [] = []
  take (suc n) (x ∷ xs) = x ∷ take n xs

  unfoldable pub drop : ℕ → List A → List A
  drop zero xs = xs
  drop (suc n) [] = []
  drop (suc n) (x ∷ xs) = drop n xs

  pub take-append : (xs ys : List A) → take (length xs) (xs ++ ys) ≡ xs
  unfolding take
  take-append [] ys = refl
  take-append (x ∷ xs) ys = ap (λ t. x ∷ t) (take-append xs ys)

  pub drop-append : (xs ys : List A) → drop (length xs) (xs ++ ys) ≡ ys
  unfolding drop
  drop-append [] ys = refl
  drop-append (x ∷ xs) ys = drop-append xs ys

  pub take_past : {n : ℕ} (xs ys : List A) → length xs ≡ n → take n (xs ++ ys) ≡ xs
  take_past xs ys e = rw (← e) (take-append xs ys)

  pub drop_past : {n : ℕ} (xs ys : List A) → length xs ≡ n → drop n (xs ++ ys) ≡ ys
  drop_past xs ys e = rw (← e) (drop-append xs ys)

  drop-nil : (n : ℕ) → drop n [] ≡ []
  unfolding drop
  drop-nil zero = refl
  drop-nil (suc n) = refl

  pub drop_add : (m n : ℕ) (xs : List A) → drop (m + n) xs ≡ drop n (drop m xs)
  unfolding drop
  drop_add zero n xs = ap (λ k. drop k xs) (omega arith)
  drop_add (suc m) n [] = drop-nil (suc m + n) ∙ sym (drop-nil n)
  drop_add (suc m) n (x ∷ xs) =
      let step : suc m + n ≡ suc (m + n) = omega arith in
      ap (λ k. drop k (x ∷ xs)) step ∙ drop_add m n xs

  -- `b[i : i + n]`
  unfoldable pub slice : ℕ → ℕ → List A → List A
  unfolding take drop
  slice i n b = take n (drop i b)

unfoldable pub put16 : ℕ → List ℕ
put16 n = n / 256 % 256 ∷ n % 256 ∷ []

unfoldable pub put32 : ℕ → List ℕ
put32 n = n / 0x100_0000 % 256 ∷ n / 0x1_0000 % 256 ∷ n / 256 % 256 ∷ n % 256 ∷ []

unfoldable pub put64 : ℕ → List ℕ
unfolding put32
put64 n = put32 (n / 2 ^ 32) ++ put32 n

-- Too few bytes, at which Go panics, give 0.
unfoldable pub get16 : List ℕ → ℕ
get16 (a ∷ b ∷ rest) = a * 256 + b
get16 _ = 0

unfoldable pub get32 : List ℕ → ℕ
get32 (a ∷ b ∷ c ∷ d ∷ rest) = ((a * 256 + b) * 256 + c) * 256 + d
get32 _ = 0

unfoldable pub get64 : List ℕ → ℕ
unfolding get32 drop
get64 bs = get32 bs * 2 ^ 32 + get32 (drop 4 bs)

pub get16-put16 : (n : ℕ) (rest : List ℕ) → n < 2 ^ 16 → get16 (put16 n ++ rest) ≡ n
unfolding get16 put16
get16-put16 n rest h = omega (arith, h)

pub get32-put32 : (n : ℕ) (rest : List ℕ) → n < 2 ^ 32 → get32 (put32 n ++ rest) ≡ n
unfolding get32 put32
get32-put32 n rest h = omega (arith, h)

pub get64-put64 : (n : ℕ) (rest : List ℕ) → n < 2 ^ 64 → get64 (put64 n ++ rest) ≡ n
unfolding get64 put64
get64-put64 n rest h = omega (arith, h)
