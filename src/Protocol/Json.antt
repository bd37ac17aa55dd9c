-- ===== src/Protocol/Json.antt =====
-- src/protocol.rs: JSON appends and the bodies of reads.
pub mod Bodies
use rivet_durable_streams.Prelude.{
  ℕ, Bool, true, false, Bytes, List, [], ◌∷◌, ◌++◌, Option, none, some, last, codes, ◌==◌,
  if◌then◌else◌, Result, ok, err, ◌>>=◌, ok_or, is_some_and,
}
use rivet_durable_streams.Store.Platform.{Platform}

-- `output.pop()`
unfoldable pub pop : Bytes → Bytes
pop [] = []
pop (x ∷ []) = []
pop (x ∷ y ∷ ys) = x ∷ pop (y ∷ ys)

-- `Vec::pop` where the last byte is a comma.
unfoldable pub pop_comma : Bytes → Bytes
unfolding pop
pop_comma output = if is_some_and (last output) (λ c. c == b',') then pop output else output

unfoldable pub concatenate : List Bytes → Bytes
concatenate [] = []
concatenate (message ∷ rest) = message ++ concatenate rest

unfoldable pub format_json_messages : List Bytes → Bytes
unfolding concatenate pop_comma
format_json_messages [] = b'[' ∷ b']' ∷ []
format_json_messages (message ∷ rest) = pop_comma (b'[' ∷ concatenate (message ∷ rest)) ++ b']' ∷ []

module _ (p : Platform) where
  -- The values of an append: the elements of an array, or the one value.
  unfoldable pub array_values : Bool → p.Value → Result (List p.Value)
  array_values initial_create parsed = elim (p.as_array parsed) [
    | none ↦ ok (parsed ∷ [])
    | some [] ↦ if initial_create then ok [] else err "Empty arrays are not allowed"
    | some (value ∷ values) ↦ ok (value ∷ values)
  ]

  -- Each value and a comma.
  unfoldable pub write_values : List p.Value → Bytes
  write_values [] = []
  write_values (value ∷ values) = p.to_writer value ++ b',' ∷ write_values values

  unfoldable pub process_json_append : Bytes → Bool → Result Bytes
  unfolding array_values write_values
  process_json_append body initial_create = do
    parsed ← ok_or (p.from_slice body) "Invalid JSON"
    values ← array_values initial_create parsed
    ok (write_values values)
