-- ===== src/Protocol/Decimal.antt =====
-- Decimal texts: `to_string`, `{:0w}` and `parse` of unsigned numbers in Rust's standard library.
pub mod Fixed
use rivet_durable_streams.Prelude.{
  ℕ, zero, suc, ◌+◌, ◌-◌, ◌*◌, ◌/◌, ◌%◌, Bool, ◌&&◌, Text, List, [], ◌∷◌, ◌++◌, Option, none, some,
  ltb, leb, ◌==◌, if◌then◌else◌, length, replicate,
}

-- The digits of `n`, most significant first, on fuel above `n`.
unfoldable pub decimal : ℕ → ℕ → Text
decimal zero n = []
decimal (suc fuel) n =
    let rest = decimal fuel (n / 10) ++ (b'0' + n % 10) ∷ [] in
    if ltb n 10 then (b'0' + n) ∷ [] else rest

-- `n.to_string()`
unfoldable pub to_text : ℕ → Text
unfolding decimal
to_text n = decimal (suc n) n

-- Zeros on the left up to a width.
unfoldable pub pad : ℕ → Text → Text
pad w t = replicate (w - length t) b'0' ++ t

-- `format!("{n:016}")`
unfoldable pub format_016 : ℕ → Text
unfolding pad to_text
format_016 n = pad 16 (to_text n)

unfoldable pub is_ascii_digit : ℕ → Bool
is_ascii_digit c = leb b'0' c && leb c b'9'

unfoldable pub parse_digits : ℕ → Text → Option ℕ
unfolding is_ascii_digit
parse_digits acc [] = some acc
parse_digits acc (c ∷ cs) =
    if is_ascii_digit c then parse_digits (acc * 10 + (c - b'0')) cs else none

unfoldable pub bounded : ℕ → Option ℕ → Option ℕ
bounded max none = none
bounded max (some n) = if leb n max then some n else none

unfoldable pub parse_nonempty : ℕ → Text → Option ℕ
unfolding bounded parse_digits
parse_nonempty max [] = none
parse_nonempty max (c ∷ cs) = bounded max (parse_digits 0 (c ∷ cs))

-- `str::parse` into an unsigned type with the largest value `max`: one leading `+` is allowed, and
-- a value above `max` is an error. (For texts of digits it is also `parse` into a signed type.)
unfoldable pub parse_unsigned : ℕ → Text → Option ℕ
unfolding parse_nonempty
parse_unsigned max [] = none
parse_unsigned max (c ∷ cs) =
    if c == b'+' then parse_nonempty max cs else parse_nonempty max (c ∷ cs)

abbrev pub u64_max : ℕ
u64_max = 18446744073709551615

unfoldable pub parse_u64 : Text → Option ℕ
unfolding parse_unsigned
parse_u64 = parse_unsigned u64_max
