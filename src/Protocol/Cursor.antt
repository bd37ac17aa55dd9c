-- ===== src/Protocol/Cursor.antt =====
-- src/protocol.rs: `response_cursor`.
pub mod Past
use rivet_durable_streams.Prelude.{
  ℕ, suc, ◌+◌, ◌*◌, ◌/◌, ◌%◌, ◌≤◌, ◌≡◌, Bool, not, ◌&&◌, ℤ, pos, negsuc, sub_ℕ, pos_part, neg_part,
  ltb_ℤ, ◌≤ℤ◌, Text, Option, none, some, leb, if◌then◌else◌, is_empty, all, length, i64_max, arith,
}
use Prim.Native.Nat.{max}
use rivet_durable_streams.Protocol.Decimal.{is_ascii_digit, parse_unsigned}

abbrev pub cursor_epoch_ms : ℕ
cursor_epoch_ms = 1728432000000

-- Division of an `i64` by a positive number, towards 0.
unfoldable pub quotient : ℤ → ℕ → ℤ
quotient (pos n) d = pos (n / d)
quotient (negsuc n) d = sub_ℕ 0 (suc n / d)

unfoldable pub current_cursor : ℤ → ℤ
unfolding quotient
current_cursor now_ms = quotient (sub_ℕ (pos_part now_ms) (neg_part now_ms + cursor_epoch_ms)) 20000

unfoldable pub is_cursor : Text → Bool
unfolding all is_ascii_digit
is_cursor cursor = not (is_empty cursor) && leb (length cursor) 15 && all is_ascii_digit cursor

-- The number of a client's cursor, if it has one.
unfoldable pub client_cursor : Option Text → Option ℕ
unfolding is_cursor parse_unsigned
client_cursor none = none
client_cursor (some cursor) = if is_cursor cursor then parse_unsigned i64_max cursor else none

-- The jitter, in intervals, from the first two bytes of a random identifier.
unfoldable pub jitter_intervals : ℕ → ℕ → ℕ
jitter_intervals b0 b1 = max ((1 + (b0 * 256 + b1) % 3600 + 19) / 20) 1

unfoldable pub past_client : ℤ → ℕ → Option ℕ → ℤ
past_client current interval none = current
past_client current interval (some client) =
    if ltb_ℤ (pos client) current then current else pos (client + interval)

-- The cursor of a response, as a number.
unfoldable pub next_cursor : ℤ → ℕ → ℕ → Option Text → ℤ
unfolding current_cursor client_cursor jitter_intervals past_client
next_cursor now_ms b0 b1 request_cursor =
    past_client (current_cursor now_ms) (jitter_intervals b0 b1) (client_cursor request_cursor)
