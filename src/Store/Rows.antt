-- ===== src/Store/Rows.antt =====
-- src/store.rs: values bound to a statement, columns of a row, and the reading of a row of `meta`.
pub mod Created
use rivet_durable_streams.Prelude.{
  ℕ, zero, suc, Bool, true, not, ℤ, pos, negsuc, Text, Bytes, List, [], ◌∷◌, Option, none, some,
  ◌==◌, Result, ok, err, ◌>>=◌,
}
use rivet_durable_streams.Store.Tables.{Meta}

-- `rivetkit::ColumnValue`
pub data ColumnValue : Type 0 where
  null_column : ColumnValue
  integer_column : ℤ → ColumnValue
  text_column : Text → ColumnValue
  blob_column : Bytes → ColumnValue

-- `rivetkit::BindParam`
pub data BindParam : Type 0 where
  null_param : BindParam
  integer_param : ℤ → BindParam
  text_param : Text → BindParam
  blob_param : Bytes → BindParam

unfoldable pub bind_optional_text : Option Text → BindParam
bind_optional_text none = null_param
bind_optional_text (some value) = text_param value

unfoldable pub bind_optional_int : Option ℤ → BindParam
bind_optional_int none = null_param
bind_optional_int (some value) = integer_param value

unfoldable pub text : Option ColumnValue → Result Text
text (some (text_column value)) = ok value
text other = err "expected text column"

unfoldable pub optional_text : Option ColumnValue → Result (Option Text)
optional_text (some (text_column value)) = ok (some value)
optional_text (some null_column) = ok none
optional_text other = err "expected optional text column"

unfoldable pub int : Option ColumnValue → Result ℤ
int (some (integer_column value)) = ok value
int other = err "expected integer column"

unfoldable pub optional_int : Option ColumnValue → Result (Option ℤ)
optional_int (some (integer_column value)) = ok (some value)
optional_int (some null_column) = ok none
optional_int other = err "expected optional integer column"

unfoldable pub blob : Option ColumnValue → Result Bytes
blob (some (blob_column value)) = ok value
blob other = err "expected blob column"

-- `row.get(n)`
unfoldable pub get : ℕ → List ColumnValue → Option ColumnValue
get n [] = none
get zero (value ∷ row) = some value
get (suc n) (value ∷ row) = get n row

-- `value != 0`
unfoldable pub is_set : ℤ → Bool
is_set (pos n) = not (n == 0)
is_set (negsuc n) = true

unfoldable pub parse_meta : List ColumnValue → Result Meta
unfolding text optional_text int optional_int is_set get
parse_meta row = do
  generation ← text (get 0 row)
  content_type ← optional_text (get 1 row)
  ttl_seconds ← optional_int (get 2 row)
  expires_at ← optional_text (get 3 row)
  closed ← int (get 4 row)
  closed_by ← optional_text (get 5 row)
  current_offset ← text (get 6 row)
  last_seq ← optional_text (get 7 row)
  created_at ← int (get 8 row)
  last_accessed_at ← int (get 9 row)
  forked_from ← optional_text (get 10 row)
  fork_offset ← optional_text (get 11 row)
  fork_sub_offset ← optional_int (get 12 row)
  fork_edge_id ← optional_text (get 13 row)
  fork_source_gen ← optional_text (get 14 row)
  soft_deleted ← int (get 15 row)
  ok record {
    generation = generation;
    content_type = content_type;
    ttl_seconds = ttl_seconds;
    expires_at = expires_at;
    closed = is_set closed;
    closed_by = closed_by;
    current_offset = current_offset;
    last_seq = last_seq;
    created_at = created_at;
    last_accessed_at = last_accessed_at;
    forked_from = forked_from;
    fork_offset = fork_offset;
    fork_sub_offset = fork_sub_offset;
    fork_edge_id = fork_edge_id;
    fork_source_gen = fork_source_gen;
    soft_deleted = is_set soft_deleted;
  }
