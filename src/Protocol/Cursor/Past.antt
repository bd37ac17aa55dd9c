-- ===== src/Protocol/Cursor/Past.antt =====
-- The cursors that `response_cursor` of src/protocol.rs answers with.
use rivet_durable_streams.Prelude.{
  ℕ, suc, ◌^◌, ◌≤◌, ◌<◌, ◌≡◌, refl, ap, ◌∙◌, true, false, ℤ, pos, negsuc, ◌≤ℤ◌, Text, [], ◌∷◌,
  Option, none, some, i64_max, leb, all, length, is_empty, arith,
}
use native.Mathlib.Nat.{pow-le-pow_right}
use rivet_durable_streams.Protocol.Decimal.{
  is_ascii_digit, parse_digits, parse_unsigned, parse_nonempty, bounded,
}
use rivet_durable_streams.Protocol.Decimal.Fixed.{fixed, length-fixed, parse_digits-fixed}
use rivet_durable_streams.Protocol.Offset.Order.{all_digits_fixed}
use rivet_durable_streams.Protocol.Cursor.{
  current_cursor, is_cursor, client_cursor, jitter_intervals, past_client, next_cursor,
}

jitter_intervals-positive : (b0 b1 : ℕ) → 1 ≤ jitter_intervals b0 b1
unfolding jitter_intervals
jitter_intervals-positive b0 b1 = ground arith

past_client_lem :
    (current : ℤ) (interval : ℕ) (request : Option ℕ)
    → 1 ≤ interval
    → (current ≤ℤ past_client current interval request)
      × ((client : ℕ)
          → request ≡ some client
          → pos (suc client) ≤ℤ past_client current interval request)
unfolding past_client
past_client_lem current interval none le = (omega arith, λ client e. cc)
past_client_lem (pos current) interval (some c) le = (ground arith, λ client e. grind arith)
past_client_lem (negsuc current) interval (some c) le = (ground arith, λ client e. grind arith)

-- A text of up to fifteen digits is a client's cursor, of the number that the digits write.
digits_cursor :
    (cursor : Text) (n : ℕ)
    → is_empty cursor ≡ false
    → leb (length cursor) 15 ≡ true
    → all is_ascii_digit cursor ≡ true
    → parse_digits 0 cursor ≡ some n
    → leb n i64_max ≡ true
    → client_cursor (some cursor) ≡ some n
unfolding client_cursor is_cursor all is_ascii_digit parse_unsigned parse_nonempty bounded
digits_cursor [] n full short digits read bound = cc
digits_cursor (c ∷ cs) n full short digits read bound = ground arith

sent :
    (digits client : ℕ)
    → digits < 15
    → client < 10 ^ suc digits
    → client_cursor (some (fixed (suc digits) client)) ≡ some client
sent digits client small bound =
    let cursor = fixed (suc digits) client in
    let size = length-fixed (suc digits) client in
    let largest : 10 ^ suc digits ≤ 10 ^ 15 =
      pow-le-pow_right (omega arith) {j = 15} (omega arith) in
    digits_cursor cursor client (filled cursor (omega (arith, size))) (ground (arith, size))
      (all_digits_fixed (suc digits) client) (parse_digits-fixed (suc digits) client bound)
      (ground arith)
  where
    filled : (s : Text) → 0 < length s → is_empty s ≡ false
    filled [] h = elim h [ ]
    filled (c ∷ cs) h = refl

longer : (cursor : Text) → 15 < length cursor → client_cursor (some cursor) ≡ none
unfolding client_cursor is_cursor
longer cursor more = ground arith

-- A response's cursor is never before the current interval. It is past the cursor that the client
-- sent, where that is one of at most fifteen digits, so that a cached response is not asked for
-- again. A text of more than fifteen bytes is ignored: the response's cursor is the current interval.
pub next_cursor_advances :
    (now_ms : ℤ) (b0 b1 : ℕ) (request_cursor : Option Text)
    → (current_cursor now_ms ≤ℤ next_cursor now_ms b0 b1 request_cursor)
      × ((digits client : ℕ)
          → digits < 15
          → client < 10 ^ suc digits
          → request_cursor ≡ some (fixed (suc digits) client)
          → pos (suc client) ≤ℤ next_cursor now_ms b0 b1 request_cursor)
      × ((cursor : Text)
          → 15 < length cursor
          → request_cursor ≡ some cursor
          → next_cursor now_ms b0 b1 request_cursor ≡ current_cursor now_ms)
unfolding next_cursor past_client
next_cursor_advances now_ms b0 b1 request_cursor =
    let (first, past) =
      past_client_lem (current_cursor now_ms) (jitter_intervals b0 b1)
        (client_cursor request_cursor) (jitter_intervals-positive b0 b1) in
    (
      first,
      λ digits client small bound e.
          past client (ap client_cursor e ∙ sent digits client small bound),
      λ cursor more e.
          ap (past_client (current_cursor now_ms) (jitter_intervals b0 b1))
            (ap client_cursor e ∙ longer cursor more),
    )
