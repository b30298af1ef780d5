-- ===== src/VirtualServer/Domain/Path/Segments.antt =====
-- The segments that are valid, character by character.
use ocelot.Prelude.{
  ℕ, ◌+◌, ◌≤◌, ◌≡◌, ◌≢◌, ◌↔◌, refl, false, none, List, [], ◌∷◌, length, All, ◌⊎◌, inl, inr, arith,
  Option-cases, ◌==◌, nat_eq, list_eq,
}
use ocelot.VirtualServer.Domain.Path.{
  is_safe, check_rune, check_runes, validate_segment, byte_length, rune_length, starts_with_dash,
  is_control,
}

-- A lower-case letter, a digit, an underscore or a dash.
abbrev pub IsWordChar : ℕ → Type 0
IsWordChar c = ((b'a' ≤ c) × (c ≤ b'z')) ⊎ ((b'0' ≤ c) × (c ≤ b'9')) ⊎ (c ≡ b'_') ⊎ (c ≡ b'-')

abbrev StartsWell : List ℕ → Type 0
StartsWell [] = ⊥
StartsWell (c ∷ cs) = c ≢ b'-'

-- One to 63 such characters, the first of which is no dash.
pub record IsSegment (s : List ℕ) : Type 0 where
  pub word : All IsWordChar s
  pub short : length s ≤ 63
  pub start : StartsWell s

check_rune_iff : (i c : ℕ) → (check_rune i c ≡ none) ↔ IsWordChar c
unfolding check_rune is_safe is_control
check_rune_iff i c = ground arith

word_length : (s : List ℕ) → All IsWordChar s → byte_length s ≡ length s
unfolding byte_length rune_length
word_length [] h = refl
word_length (c ∷ s) (hc, hs) = ground (arith, word_length s hs)

runes_word : (i : ℕ) (s : List ℕ) → check_runes i s ≡ none → All IsWordChar s
unfolding check_runes
runes_word i [] h = tt
runes_word i (c ∷ s) h = elim (Option-cases (check_rune i c)) [
  | inl fine ↦
      ((check_rune_iff i c).0 fine, runes_word (i + rune_length c) s (rw (fine, check_runes) at h))
  | inr (e, bad) ↦ cc (rw (bad, check_runes) at h)
]

word_runes : (i : ℕ) (s : List ℕ) → All IsWordChar s → check_runes i s ≡ none
unfolding check_runes
word_runes i [] h = refl
word_runes i (c ∷ s) (hc, hs) =
    rw ((check_rune_iff i c).1 hc, check_runes) (word_runes (i + rune_length c) s hs)

no_dots :
    (s : List ℕ) → All IsWordChar s → ((s == b'.' ∷ []) ≡ false) × ((s == b'.' ∷ b'.' ∷ []) ≡ false)
no_dots [] h = (refl, refl)
no_dots (c ∷ s) (hc, hs) = ground arith

-- A segment is valid exactly when it is one to 63 lower-case letters, digits, underscores and dashes
-- that do not start with a dash.
pub validate_segment_iff : (s : List ℕ) → (validate_segment s ≡ none) ↔ IsSegment s
unfolding validate_segment starts_with_dash
validate_segment_iff [] = (λ h. absurd (ground arith), λ v. absurd v.start)
validate_segment_iff (c ∷ s) = (
  λ h. elim (Option-cases (check_runes 0 (c ∷ s))) [
    | inr (e, bad) ↦ absurd (ground arith)
    | inl fine ↦
        let word = runes_word 0 (c ∷ s) fine in
        record {
          word = word;
          short = ground (arith, word_length (c ∷ s) word);
          start = ground arith;
        }
  ],
  λ v.
      ground
        (arith, word_length (c ∷ s) v.word, no_dots (c ∷ s) v.word, word_runes 0 (c ∷ s) v.word),
)
