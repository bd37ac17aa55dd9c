-- ===== src/Protocol/Offset.antt =====
-- src/protocol.rs: the offsets of a stream, two decimal numbers joined by `_`.
pub mod Order
use rivet_durable_streams.Prelude.{
  ℕ, ◌+◌, Bool, true, false, not, ◌&&◌, ◌||◌, Text, List, [], ◌∷◌, ◌++◌, Option, none, some, leb,
  ◌==◌, if◌then◌else◌, is_empty, all, codes, text_eq, Result, ok, err, ◌>>=◌, ok_or,
}
use rivet_durable_streams.Protocol.Decimal.{format_016, is_ascii_digit, parse_u64, u64_max}

abbrev pub zero_offset : Text
zero_offset = codes "0000000000000000_0000000000000000"

-- `str::split_once`
unfoldable pub split_once : ℕ → Text → Option (Text × Text)
split_once c [] = none
split_once c (x ∷ xs) =
    let rest = split_once c xs in
    if x == c
    then some ([], xs)
    else elim rest [ none ↦ none | some (before, after) ↦ some (x ∷ before, after) ]

unfoldable pub is_digits : Text → Bool
unfolding all is_ascii_digit
is_digits t = not (is_empty t) && all is_ascii_digit t

-- `is_concrete_offset` of actor.rs.
unfoldable pub is_concrete_offset : Text → Bool
unfolding split_once is_digits
is_concrete_offset value = elim (split_once b'_' value) [
  | none ↦ false
  | some (read_seq, byte_offset) ↦ is_digits read_seq && is_digits byte_offset
]

unfoldable pub validate_offset : Text → Bool
unfolding is_concrete_offset
validate_offset value =
    if text_eq value (codes "-1") || text_eq value (codes "now")
    then true
    else is_concrete_offset value

-- `u64::checked_add`
unfoldable pub checked_add : ℕ → ℕ → Option ℕ
checked_add a b = if leb (a + b) u64_max then some (a + b) else none

-- `byte_offset.checked_add(5).and_then(|value| value.checked_add(payload_len))`
unfoldable pub next_byte : ℕ → ℕ → Option ℕ
unfolding checked_add
next_byte byte_offset payload_len = elim (checked_add byte_offset 5) [
  | none ↦ none
  | some value ↦ checked_add value payload_len
]

unfoldable pub advance_offset : Text → ℕ → Result Text
unfolding split_once parse_u64 next_byte format_016
advance_offset current payload_len = do
  (read_text, byte_text) ← ok_or (split_once b'_' current) "invalid current offset"
  read_seq ← ok_or (parse_u64 read_text) "invalid digit found in string"
  byte_offset ← ok_or (parse_u64 byte_text) "invalid digit found in string"
  next ← ok_or (next_byte byte_offset payload_len) "stream offset overflow"
  ok (format_016 read_seq ++ b'_' ∷ format_016 next)
