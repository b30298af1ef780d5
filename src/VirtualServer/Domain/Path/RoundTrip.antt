-- ===== src/VirtualServer/Domain/Path/RoundTrip.antt =====
-- Printed paths are parsed back, and parsed ones are canonical.
use ocelot.Prelude.{
  ℕ, ◌+◌, ◌≤◌, ◌≡◌, refl, ap, ◌∙◌, Bool, true, false, Option, none, some, List, [], ◌∷◌, ◌++◌, map,
  any, not, All, arith, Option-cases, inl, inr, ◌==◌, nat_eq, list_eq, ltb,
}
use ocelot.Prelude.Results.{ok, guard, bind_gives}
use ocelot.VirtualServer.Domain.Path.{
  VsPath, PathError, is_safe, check_rune, check_runes, validate_segment, validate, byte_length,
  rune_length, split, push_front, to_lower, parse, print, strip_scheme, of_parts, is_query,
  is_percent, validated, component,
}

abbrev IsSafe : ℕ → Type 0
IsSafe c = is_safe c ≡ true

check_runes-IsSafe : (i : ℕ) (s : List ℕ) → check_runes i s ≡ none → All IsSafe s
unfolding check_runes check_rune
check_runes-IsSafe i [] h = tt
check_runes-IsSafe i (c ∷ cs) h = ground (arith, check_runes-IsSafe (i + rune_length c) cs)

-- What the validation of a segment lets through.
record IsPlain (s : List ℕ) : Type 0 where
  safe : All IsSafe s
  short : byte_length s ≤ 63
  filled : 1 ≤ byte_length s

validate_segment-IsPlain : (s : List ℕ) → validate_segment s ≡ none → IsPlain s
unfolding validate_segment
validate_segment-IsPlain s h = elim (Option-cases (check_runes 0 s)) [
  | inl fine ↦ record {
    safe = check_runes-IsSafe 0 s fine;
    short = ground arith;
    filled = ground arith;
  }
  | inr (e, bad) ↦ absurd (ground arith)
]

byte_length-append : (s t : List ℕ) → byte_length (s ++ t) ≡ byte_length s + byte_length t
unfolding byte_length
byte_length-append [] t = omega arith
byte_length-append (c ∷ s) t = omega (arith, byte_length-append s t)

any-safe :
    (p : ℕ → Bool) (s t : List ℕ)
    → ((c : ℕ) → IsSafe c → p c ≡ false)
    → All IsSafe s
    → any p (s ++ t) ≡ any p t
unfolding any
any-safe p [] t no_match h = refl
any-safe p (c ∷ s) t no_match (hc, hs) = rw (no_match c hc) (any-safe p s t no_match hs)

any_last :
    (p : ℕ → Bool) (s : List ℕ)
    → ((c : ℕ) → IsSafe c → p c ≡ false)
    → All IsSafe s
    → any p s ≡ false
unfolding any
any_last p [] no_match h = refl
any_last p (c ∷ s) no_match (hc, hs) = rw (no_match c hc) (any_last p s no_match hs)

split-segment : (s t : List ℕ) → All IsSafe s → split (s ++ (b'/' ∷ t)) ≡ s ∷ split t
unfolding split push_front is_safe
split-segment [] t h = refl
split-segment (c ∷ s) t (hc, hs) = ground (arith, split-segment s t hs)

split_last : (s : List ℕ) → All IsSafe s → split s ≡ s ∷ []
unfolding split push_front is_safe
split_last [] h = refl
split_last (c ∷ s) (hc, hs) = ground (arith, split_last s hs)

module _ (fold : ℕ → ℕ) where
  to_lower-safe : (s : List ℕ) → All IsSafe s → map (to_lower fold) s ≡ s
  unfolding to_lower is_safe
  to_lower-safe [] h = refl
  to_lower-safe (c ∷ s) (hc, hs) = ground (arith, to_lower-safe s hs)

validate-IsPlain :
    (p : VsPath)
    → validate p ≡ none
    → IsPlain p.namespace × IsPlain p.service × IsPlain p.instance_name
unfolding validate
validate-IsPlain p h = elim (Option-cases (validate_segment p.namespace)) [
  | inr (e, bad) ↦ absurd (ground arith)
  | inl n ↦ elim (Option-cases (validate_segment p.service)) [
    | inr (e, bad) ↦ absurd (ground arith)
    | inl s ↦ elim (Option-cases (validate_segment p.instance_name)) [
      | inr (e, bad) ↦ absurd (ground arith)
      | inl i ↦ (
        validate_segment-IsPlain p.namespace n,
        validate_segment-IsPlain p.service s,
        validate_segment-IsPlain p.instance_name i,
      )
    ]
  ]
]

-- The part of a printed path behind the scheme.
abbrev body : VsPath → List ℕ
body p = p.namespace ++ (b'/' ∷ (p.service ++ (b'/' ∷ p.instance_name)))

slash_filled : (s t : List ℕ) → (s ++ (b'/' ∷ t) == []) ≡ false
slash_filled [] t = refl
slash_filled (c ∷ s) t = refl

module _ (p : VsPath) (n : IsPlain p.namespace) (s : IsPlain p.service)
    (i : IsPlain p.instance_name) where
  any-body :
      (q : ℕ → Bool) → q b'/' ≡ false → ((c : ℕ) → IsSafe c → q c ≡ false) → any q (body p) ≡ false
  unfolding any
  any-body q slash no_match =
      rw (any-safe q p.namespace (b'/' ∷ (p.service ++ (b'/' ∷ p.instance_name))) no_match n.safe) (
        rw slash (
          rw (any-safe q p.service (b'/' ∷ p.instance_name) no_match s.safe)
            (rw slash (any_last q p.instance_name no_match i.safe))))

  split-body : split (body p) ≡ p.namespace ∷ p.service ∷ p.instance_name ∷ []
  split-body =
      split-segment p.namespace _ n.safe
      ∙ ap (λ t. p.namespace ∷ t)
          (split-segment p.service _ s.safe
            ∙ ap (λ t. p.service ∷ t) (split_last p.instance_name i.safe))

  byte_length-print : ltb 255 (byte_length (print p)) ≡ false
  unfolding print byte_length rune_length
  byte_length-print = ground (
    arith,
    byte_length-append p.namespace (b'/' ∷ (p.service ++ (b'/' ∷ p.instance_name))),
    byte_length-append p.service (b'/' ∷ p.instance_name),
    n.short,
    s.short,
    i.short,
  )

  body_filled : (body p == []) ≡ false
  body_filled = slash_filled p.namespace (p.service ++ (b'/' ∷ p.instance_name))

safe_no_query : (c : ℕ) → IsSafe c → is_query c ≡ false
unfolding is_safe
safe_no_query c h = ground arith

safe_no_percent : (c : ℕ) → IsSafe c → is_percent c ≡ false
unfolding is_safe
safe_no_percent c h = ground arith

-- A path that passes `Validate` is parsed back from its printed form.
pub parse-print : (fold : ℕ → ℕ) (p : VsPath) → validate p ≡ none → parse fold (print p) ≡ ok p
unfolding parse strip_scheme print
parse-print fold p h =
    let (n, s, i) = validate-IsPlain p h in
    rw
      (
        byte_length-print p n s i,
        body_filled p n s i,
        any-body p n s i is_query refl safe_no_query,
        any-body p n s i is_percent refl safe_no_percent,
        split-body p n s i,
        to_lower-safe fold p.namespace n.safe,
        to_lower-safe fold p.service s.safe,
        to_lower-safe fold p.instance_name i.safe,
        h,
      )
      refl

validated-eq-ok :
    (q p : VsPath) (o : Option PathError)
    → o ≡ validate q
    → validated q o ≡ ok p
    → validate p ≡ none
validated-eq-ok q p none e h = cc
validated-eq-ok q p (some x) e h = cc

parsed-validate :
    (fold : ℕ → ℕ) (raw : List ℕ) (p : VsPath) → parse fold raw ≡ ok p → validate p ≡ none
unfolding parse
parsed-validate fold raw p h =
    let (_, _, h₁) = bind_gives (guard (not (ltb 255 (byte_length raw))) _) _ h in
    let (rest, _, h₂) = bind_gives (component (strip_scheme raw)) _ h₁ in
    let (_, _, h₃) = bind_gives (guard (not (rest == [])) _) _ h₂ in
    let (_, _, h₄) = bind_gives (guard (not (any is_query rest)) _) _ h₃ in
    let (_, _, h₅) = bind_gives (guard (not (any is_percent rest)) _) _ h₄ in
    let (q, _, h₆) = bind_gives (of_parts fold (split rest)) _ h₅ in
    validated-eq-ok q p (validate q) refl h₆

-- Whatever is parsed is canonical: it passes `Validate`, and its printed form is parsed to it again.
pub parse_again :
    (fold : ℕ → ℕ) (raw : List ℕ) (p : VsPath)
    → parse fold raw ≡ ok p
    → (validate p ≡ none) × (parse fold (print p) ≡ ok p)
parse_again fold raw p h = let v = parsed-validate fold raw p h in (v, parse-print fold p v)
