-- ===== src/Protocol/Integer.antt =====
-- src/protocol.rs and src/actor.rs: the integers of headers.
pub mod Canonical
use rivet_durable_streams.Prelude.{
  ℕ, ◌≤◌, ◌<◌, ◌≡◌, refl, sym, ap, ◌∙◌, ◌↔◌, Bool, true, false, not, ◌&&◌, ◌||◌, Text, List, [],
  ◌∷◌, Option, none, some, ltb, leb, ◌==◌, if◌then◌else◌, is_empty, all, length, first, is_some_and,
  i64_max, arith,
}
use rivet_durable_streams.Protocol.Decimal.{
  is_ascii_digit, parse_unsigned, parse_nonempty, bounded, parse_digits,
}

abbrev pub max_safe_integer : ℕ
max_safe_integer = 9007199254740991

abbrev pub max_ttl_seconds : ℕ
max_ttl_seconds = 3153600000

-- The test that both parsers begin with.
unfoldable pub is_canonical : Text → Bool
unfolding all is_ascii_digit
is_canonical value = not (
    is_empty value
    || (ltb 1 (length value) && is_some_and (first value) (λ c. c == b'0'))
    || not (all is_ascii_digit value))

unfoldable pub at_most : ℕ → Option ℕ → Option ℕ
at_most max none = none
at_most max (some n) = if ltb max n then none else some n

-- `none` is the error that the value is no non-negative integer.
unfoldable pub parse_non_negative_safe_integer : Text → Option ℕ
unfolding is_canonical parse_unsigned at_most
parse_non_negative_safe_integer value =
    if is_canonical value then at_most max_safe_integer (parse_unsigned i64_max value) else none

unfoldable pub parse_ttl : Text → Option ℕ
unfolding is_canonical parse_unsigned at_most
parse_ttl value =
    if is_canonical value then at_most max_ttl_seconds (parse_unsigned i64_max value) else none
