-- ===== src/Tests/Protocol.antt =====
-- Concrete inputs for the theorems on src/protocol.rs.
use rivet_durable_streams.Prelude.{
  ℕ, suc, ◌^◌, ◌≤◌, ◌<◌, ◌≡◌, ◌↔◌, Text, length, false, pos, ◌≤ℤ◌, [], ◌∷◌, ◌++◌, map, some, codes,
}
use rivet_durable_streams.Protocol.Decimal.{to_text}
use rivet_durable_streams.Protocol.Decimal.Fixed.{fixed}
use rivet_durable_streams.Protocol.Integer.{parse_non_negative_safe_integer, max_safe_integer}
use rivet_durable_streams.Protocol.Integer.Canonical.{parse_non_negative_safe_integer_iff}
use rivet_durable_streams.Protocol.Cursor.{current_cursor, next_cursor}
use rivet_durable_streams.Protocol.Json.{format_json_messages, write_values}
use rivet_durable_streams.Protocol.Json.Bodies.{
  separated, all_values, format_json_messages-write_values,
}
use rivet_durable_streams.Protocol.Cursor.Past.{next_cursor_advances}
use rivet_durable_streams.Protocol.Sse.{encode_sse_data}
use rivet_durable_streams.Protocol.Sse.Frames.{
  lines, newlines, received, data_line, encode_sse_data-lines,
}
use rivet_durable_streams.Tests.Data.{platform}

parse_non_negative_safe_integer_iff_example :
    (parse_non_negative_safe_integer (codes "42") ≡ some 42)
    ↔ ((codes "42" ≡ to_text 42) × (42 ≤ max_safe_integer))
parse_non_negative_safe_integer_iff_example = parse_non_negative_safe_integer_iff (codes "42") 42

next_cursor_advances_example :
    (current_cursor (pos 1728432060000)
      ≤ℤ next_cursor (pos 1728432060000) 0 7 (some (codes "99999999")))
    × ((digits client : ℕ)
        → digits < 15
        → client < 10 ^ suc digits
        → some (codes "99999999") ≡ some (fixed (suc digits) client)
        → pos (suc client) ≤ℤ next_cursor (pos 1728432060000) 0 7 (some (codes "99999999")))
    × ((cursor : Text)
        → 15 < length cursor
        → some (codes "99999999") ≡ some cursor
        → next_cursor (pos 1728432060000) 0 7 (some (codes "99999999"))
          ≡ current_cursor (pos 1728432060000))
next_cursor_advances_example =
    next_cursor_advances (pos 1728432060000) 0 7 (some (codes "99999999"))

format_json_messages-write_values_example :
    format_json_messages
      (map (write_values platform) (((1 ∷ []) ∷ (2 ∷ []) ∷ []) ∷ ((3 ∷ []) ∷ []) ∷ []))
    ≡ b'['
        ∷ separated platform
            (all_values platform (((1 ∷ []) ∷ (2 ∷ []) ∷ []) ∷ ((3 ∷ []) ∷ []) ∷ []))
      ++ b']' ∷ []
format_json_messages-write_values_example =
    format_json_messages-write_values platform (((1 ∷ []) ∷ (2 ∷ []) ∷ []) ∷ ((3 ∷ []) ∷ []) ∷ [])

encode_sse_data-lines_example :
    (lines (encode_sse_data (1 ∷ 13 ∷ 10 ∷ 2 ∷ 13 ∷ 3 ∷ []))
      ≡ map data_line (lines (newlines false (1 ∷ 13 ∷ 10 ∷ 2 ∷ 13 ∷ 3 ∷ []))) ++ [] ∷ [] ∷ [])
    × (received (encode_sse_data (1 ∷ 13 ∷ 10 ∷ 2 ∷ 13 ∷ 3 ∷ []))
        ≡ newlines false (1 ∷ 13 ∷ 10 ∷ 2 ∷ 13 ∷ 3 ∷ []))
encode_sse_data-lines_example = encode_sse_data-lines (1 ∷ 13 ∷ 10 ∷ 2 ∷ 13 ∷ 3 ∷ [])
