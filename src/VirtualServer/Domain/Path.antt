-- ===== src/VirtualServer/Domain/Path.antt =====
-- virtualserver/domain/path.go: the names vs://namespace/service/instance. A text is the list of its
-- code points, and `byte_length` its `len`: the texts are those of valid UTF-8.
pub mod RoundTrip
pub mod Segments
use ocelot.Prelude.{
  ℕ, ◌+◌, Bool, true, false, ◌&&◌, ◌||◌, not, Option, none, some, List, [], ◌∷◌, ◌++◌, map, length,
  any, if◌then◌else◌, ltb, leb, ◌==◌, nat_eq, list_eq,
}
use ocelot.Prelude.Results.{Result, ok, err, ◌>>=◌, ◌>>◌, guard}

abbrev pub max_path_len : ℕ
max_path_len = 255

abbrev pub max_seg_len : ℕ
max_seg_len = 63

-- The bytes of a code point in UTF-8.
unfoldable pub rune_length : ℕ → ℕ
rune_length c = if ltb c 0x80 then 1 else if ltb c 0x800 then 2 else if ltb c 0x1_0000 then 3 else 4

unfoldable pub byte_length : List ℕ → ℕ
unfolding rune_length
byte_length [] = 0
byte_length (c ∷ cs) = rune_length c + byte_length cs

pub record VsPath : Type 0 where
  pub namespace : List ℕ
  pub service : List ℕ
  pub instance_name : List ℕ

pub data Segment : Type 0 where
  namespace_segment service_segment instance_segment : Segment

pub data SegmentError : Type 0 where
  empty dots : SegmentError
  long : ℕ → SegmentError
  control_character : ℕ → SegmentError
  invalid_character : ℕ → ℕ → SegmentError
  leading_dash : SegmentError

pub data PathError : Type 0 where
  too_long : ℕ → PathError
  no_scheme no_component has_query bad_escape has_escape : PathError
  segment_count : ℕ → PathError
  in_segment : Segment → SegmentError → PathError

-- `unicode.IsControl`
unfoldable pub is_control : ℕ → Bool
is_control c = ltb c 32 || (leb 127 c && ltb c 160)

unfoldable pub is_safe : ℕ → Bool
is_safe c = (leb b'a' c && leb c b'z') || ((leb b'0' c && leb c b'9') || (c == b'_' || c == b'-'))

-- One round of the loop over the code points of a segment, at the byte `i`.
unfoldable pub check_rune : ℕ → ℕ → Option SegmentError
unfolding is_control is_safe
check_rune i c =
    if is_control c
    then some (control_character i)
    else if is_safe c
    then none
    else some (invalid_character c i)

unfoldable pub check_runes : ℕ → List ℕ → Option SegmentError
unfolding check_rune rune_length
check_runes i [] = none
check_runes i (c ∷ cs) = elim (check_rune i c) [
  | some e ↦ some e
  | none ↦ check_runes (i + rune_length c) cs
]

unfoldable pub starts_with_dash : List ℕ → Bool
starts_with_dash [] = false
starts_with_dash (c ∷ cs) = c == b'-'

unfoldable pub validate_segment : List ℕ → Option SegmentError
unfolding byte_length check_runes starts_with_dash
validate_segment seg =
    if ltb (byte_length seg) 1
    then some empty
    else (if seg == b'.' ∷ [] || seg == b'.' ∷ b'.' ∷ []
        then some dots
        else (if ltb max_seg_len (byte_length seg)
            then some (long (byte_length seg))
            else elim (check_runes 0 seg) [
              | some e ↦ some e
              | none ↦ if starts_with_dash seg then some leading_dash else none
            ]))

-- The segments are checked in order, and the first error is returned.
unfoldable pub validate : VsPath → Option PathError
unfolding validate_segment
validate p = elim (validate_segment p.namespace) [
  | some e ↦ some (in_segment namespace_segment e)
  | none ↦ elim (validate_segment p.service) [
    | some e ↦ some (in_segment service_segment e)
    | none ↦ elim (validate_segment p.instance_name) [
      | some e ↦ some (in_segment instance_segment e)
      | none ↦ none
    ]
  ]
]

-- `strings.HasPrefix` with the slice that follows.
unfoldable pub strip_scheme : List ℕ → Option (List ℕ)
strip_scheme (a ∷ b ∷ c ∷ d ∷ e ∷ rest) =
    if a == b'v' && (b == b's' && (c == b':' && (d == b'/' && e == b'/'))) then some rest else none
strip_scheme _ = none

unfoldable pub push_front : ℕ → List (List ℕ) → List (List ℕ)
push_front c [] = (c ∷ []) ∷ []
push_front c (p ∷ ps) = (c ∷ p) ∷ ps

-- `strings.Split(rest, "/")`
unfoldable pub split : List ℕ → List (List ℕ)
unfolding push_front
split [] = [] ∷ []
split (c ∷ cs) = let rest = split cs in if c == b'/' then [] ∷ rest else push_front c rest

unfoldable pub is_hex : ℕ → Bool
is_hex c = (leb b'0' c && leb c b'9') || ((leb b'a' c && leb c b'f') || (leb b'A' c && leb c b'F'))

-- Whether `url.PathUnescape` succeeds: two digits follow each percent sign.
unfoldable pub unescapes : List ℕ → Bool
unfolding is_hex
unescapes [] = true
unescapes (c ∷ []) = not (c == b'%')
unescapes (c ∷ d ∷ []) = not (c == b'%') && not (d == b'%')
unescapes (c ∷ d ∷ e ∷ cs) =
    let rest = unescapes (d ∷ e ∷ cs) in if c == b'%' then is_hex d && (is_hex e && rest) else rest

abbrev pub is_query : ℕ → Bool
is_query c = c == b'?' || c == b'#'

abbrev pub is_percent : ℕ → Bool
is_percent c = c == b'%'

abbrev pub validated : VsPath → Option PathError → Result PathError VsPath
validated p none = ok p
validated p (some e) = err e

abbrev pub component : Option (List ℕ) → Result PathError (List ℕ)
component none = err no_scheme
component (some rest) = ok rest

-- `fold` is the lower case that the Unicode tables of the language give beyond ASCII.
module _ (fold : ℕ → ℕ) where
  unfoldable pub to_lower : ℕ → ℕ
  to_lower c = if ltb c 0x80 then if leb b'A' c && leb c b'Z' then c + 32 else c else fold c

  unfoldable pub of_parts : List (List ℕ) → Result PathError VsPath
  unfolding to_lower
  of_parts (n ∷ s ∷ i ∷ []) = ok (record {
    namespace = map to_lower n;
    service = map to_lower s;
    instance_name = map to_lower i;
  })
  of_parts parts = err (segment_count (length parts))

  unfoldable pub parse : List ℕ → Result PathError VsPath
  unfolding byte_length strip_scheme unescapes split of_parts validate
  parse raw = do
    guard (not (ltb max_path_len (byte_length raw))) (too_long (byte_length raw))
    rest ← component (strip_scheme raw)
    guard (not (rest == [])) no_component
    guard (not (any is_query rest)) has_query
    guard (not (any is_percent rest)) (if unescapes rest then has_escape else bad_escape)
    p ← of_parts (split rest)
    validated p (validate p)

-- `String`
unfoldable pub print : VsPath → List ℕ
print p =
    b'v'
    ∷ b's'
    ∷ b':'
    ∷ b'/'
    ∷ b'/'
    ∷ (p.namespace ++ (b'/' ∷ (p.service ++ (b'/' ∷ p.instance_name))))
