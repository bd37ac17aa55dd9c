-- ===== src/Protocol/Content.antt =====
-- src/protocol.rs: content types, and the standard library's functions on texts that they use.
pub mod Normal
use rivet_durable_streams.Prelude.{
  ℕ, zero, suc, ◌+◌, Bool, true, false, not, ◌&&◌, ◌||◌, Text, List, [], ◌∷◌, ◌++◌, map, Option,
  none, some, ltb, leb, ◌==◌, if◌then◌else◌, is_empty, all, codes, unwrap_or, length, text_eq,
}
use mathlib.Core.List.{reverse}

unfoldable pub to_lower : ℕ → ℕ
to_lower c = if leb b'A' c && leb c b'Z' then c + 32 else c

unfoldable pub to_ascii_lowercase : Text → Text
unfolding to_lower
to_ascii_lowercase = map to_lower

unfoldable pub eq_ignore_ascii_case : Text → Text → Bool
unfolding to_ascii_lowercase
eq_ignore_ascii_case s t = text_eq (to_ascii_lowercase s) (to_ascii_lowercase t)

-- `split(c).next()`
unfoldable pub before : ℕ → Text → Text
before c [] = []
before c (x ∷ xs) = if x == c then [] else x ∷ before c xs

-- `starts_with`, `ends_with` and `contains`, the pattern first.
unfoldable pub starts_with : Text → Text → Bool
starts_with [] value = true
starts_with (c ∷ cs) [] = false
starts_with (c ∷ cs) (d ∷ ds) = c == d && starts_with cs ds

unfoldable pub ends_with : Text → Text → Bool
unfolding starts_with
ends_with pattern value = starts_with (reverse pattern) (reverse value)

unfoldable pub contains : Text → Text → Bool
unfolding starts_with
contains pattern [] = starts_with pattern []
contains pattern (c ∷ cs) = starts_with pattern (c ∷ cs) || contains pattern cs

-- `trim_end_matches(c)`
unfoldable pub trim_end_matches : ℕ → Text → Text
trim_end_matches c [] = []
trim_end_matches c (x ∷ xs) =
    let rest = trim_end_matches c xs in if is_empty rest && x == c then [] else x ∷ rest

is_ascii_space : ℕ → Bool
is_ascii_space c = (leb 9 c && leb c 13) || c == 32

-- The last byte of U+2000 to U+200A, U+2028, U+2029 and U+202F.
is_punctuation_space : ℕ → Bool
is_punctuation_space c = (leb 0x80 c && leb c 0x8a) || c == 0xa8 || c == 0xa9 || c == 0xaf

-- One character of `char::is_whitespace` off the front, in UTF-8.
unfoldable pub strip_space : Text → Option Text
unfolding is_ascii_space is_punctuation_space
strip_space [] = none
strip_space (a ∷ []) = if is_ascii_space a then some [] else none
strip_space (a ∷ b ∷ []) =
    if is_ascii_space a
    then some (b ∷ [])
    else if a == 0xc2 && (b == 0x85 || b == 0xa0)
    then some []
    else none
strip_space (a ∷ b ∷ c ∷ rest) =
    if is_ascii_space a
    then some (b ∷ c ∷ rest)
    else if a == 0xc2 && (b == 0x85 || b == 0xa0)
    then some (c ∷ rest)
    else if (a == 0xe1 && b == 0x9a && c == 0x80)
        || (a == 0xe2 && b == 0x80 && is_punctuation_space c)
        || (a == 0xe2 && b == 0x81 && c == 0x9f)
        || (a == 0xe3 && b == 0x80 && c == 0x80)
    then some rest
    else none

-- The same off the end of a text, which is given backwards.
unfoldable pub strip_space_back : Text → Option Text
unfolding is_ascii_space is_punctuation_space
strip_space_back [] = none
strip_space_back (a ∷ []) = if is_ascii_space a then some [] else none
strip_space_back (b ∷ a ∷ []) =
    if is_ascii_space b
    then some (a ∷ [])
    else if a == 0xc2 && (b == 0x85 || b == 0xa0)
    then some []
    else none
strip_space_back (c ∷ b ∷ a ∷ rest) =
    if is_ascii_space c
    then some (b ∷ a ∷ rest)
    else if b == 0xc2 && (c == 0x85 || c == 0xa0)
    then some (a ∷ rest)
    else if (a == 0xe1 && b == 0x9a && c == 0x80)
        || (a == 0xe2 && b == 0x80 && is_punctuation_space c)
        || (a == 0xe2 && b == 0x81 && c == 0x9f)
        || (a == 0xe3 && b == 0x80 && c == 0x80)
    then some rest
    else none

-- On fuel that is at least the text's length.
unfoldable pub strip_all : (Text → Option Text) → ℕ → Text → Text
strip_all strip zero t = t
strip_all strip (suc fuel) t = elim (strip t) [ none ↦ t | some rest ↦ strip_all strip fuel rest ]

-- `str::trim`
unfoldable pub trim : Text → Text
unfolding strip_all strip_space strip_space_back
trim t =
    let front = strip_all strip_space (length t) t in
    reverse (strip_all strip_space_back (length front) (reverse front))

unfoldable pub normalize_content_type : Option Text → Text
unfolding before trim to_ascii_lowercase
normalize_content_type value = to_ascii_lowercase (trim (before b';' (unwrap_or value [])))

unfoldable pub is_header_char : ℕ → Bool
is_header_char byte = byte == 9 || (leb 0x20 byte && leb byte 0x7e)

unfoldable pub default_content_type : Bool → Option Text
default_content_type true = none
default_content_type false = some (codes "application/octet-stream")

unfoldable pub sanitize_content_type : Option Text → Bool → Option Text
unfolding trim all is_header_char default_content_type
sanitize_content_type none is_fork = default_content_type is_fork
sanitize_content_type (some value) is_fork =
    if not (is_empty (trim value)) && all is_header_char value
    then some value
    else default_content_type is_fork
