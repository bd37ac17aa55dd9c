-- ===== src/Store/Rows/Created.antt =====
-- src/store.rs: the row of `meta` that `create_meta` stores, and what a SELECT finds of it.
use package.text.Mathlib.Text.{◌==◌ as str_eq}
use rivet_durable_streams.Prelude.{
  ◌≡◌, refl, Bool, true, false, ℤ, pos, String, Text, List, [], ◌∷◌, Option, none, some, map,
  if◌then◌else◌, is_some, unwrap_or, ok,
}
use rivet_durable_streams.Protocol.Offset.{zero_offset}
use rivet_durable_streams.Store.Meta.{new_meta}
use rivet_durable_streams.Store.Rows.{
  ColumnValue, null_column, integer_column, text_column, blob_column, BindParam, null_param,
  integer_param, text_param, blob_param, bind_optional_text, bind_optional_int, text, optional_text,
  int, optional_int, is_set, get, parse_meta,
}

-- The column that a parameter is stored as.
unfoldable stored : BindParam → ColumnValue
stored null_param = null_column
stored (integer_param value) = integer_column value
stored (text_param value) = text_column value
stored (blob_param value) = blob_column value

-- A value of an INSERT: a literal, or a `?`.
pub data SqlValue : Type 0 where
  literal : ColumnValue → SqlValue
  bound : SqlValue

-- INSERT: each column's value, where the `?` take the parameters in their order.
unfoldable inserted : List String → List SqlValue → List BindParam → List (String × ColumnValue)
unfolding stored
inserted (column ∷ columns) (literal value ∷ values) params =
    (column, value) ∷ inserted columns values params
inserted (column ∷ columns) (bound ∷ values) (param ∷ params) =
    (column, stored param) ∷ inserted columns values params
inserted columns values params = []

-- A column that the table has, but the row does not, is NULL.
unfoldable column_value : List (String × ColumnValue) → String → ColumnValue
column_value [] column = null_column
column_value ((name, value) ∷ row) column =
    if str_eq name column then value else column_value row column

abbrev insert_columns : List String
insert_columns =
    "id" ∷ "gen" ∷ "content_type" ∷ "ttl_seconds" ∷ "expires_at" ∷ "closed" ∷ "closed_by"
    ∷ "current_offset" ∷ "last_seq" ∷ "created_at" ∷ "last_accessed_at" ∷ "forked_from"
    ∷ "fork_offset" ∷ "fork_sub_offset" ∷ "fork_edge_id" ∷ "fork_source_gen" ∷ "soft_deleted" ∷ []

abbrev insert_values : List SqlValue
insert_values =
    literal (integer_column (pos 1))
    ∷ bound
    ∷ bound
    ∷ bound
    ∷ bound
    ∷ bound
    ∷ literal null_column
    ∷ bound
    ∷ literal null_column
    ∷ bound
    ∷ bound
    ∷ bound
    ∷ bound
    ∷ bound
    ∷ bound
    ∷ bound
    ∷ literal (integer_column (pos 0))
    ∷ []

-- The columns of `meta_select`, in its order.
abbrev meta_select : List String
meta_select =
    "gen" ∷ "content_type" ∷ "ttl_seconds" ∷ "expires_at" ∷ "closed" ∷ "closed_by"
    ∷ "current_offset" ∷ "last_seq" ∷ "created_at" ∷ "last_accessed_at" ∷ "forked_from"
    ∷ "fork_offset" ∷ "fork_sub_offset" ∷ "fork_edge_id" ∷ "fork_source_gen" ∷ "soft_deleted" ∷ []

-- `i64::from(closed)`
abbrev from_bool : Bool → ℤ
from_bool false = pos 0
from_bool true = pos 1

abbrev initial_offset : Option Text → Option Text → Text
initial_offset forked_from fork_offset =
    if is_some forked_from then unwrap_or fork_offset zero_offset else zero_offset

module _ (generation : Text) (content_type : Option Text) (ttl_seconds : Option ℤ)
    (expires_at : Option Text) (closed : Bool) (now_ms : ℤ) (forked_from fork_offset : Option Text)
    (fork_sub_offset : Option ℤ) (fork_edge_id fork_source_gen : Option Text) where
  unfoldable pub create_params : List BindParam
  unfolding bind_optional_text bind_optional_int
  create_params =
      text_param generation
      ∷ bind_optional_text content_type
      ∷ bind_optional_int ttl_seconds
      ∷ bind_optional_text expires_at
      ∷ integer_param (from_bool closed)
      ∷ text_param (initial_offset forked_from fork_offset)
      ∷ integer_param now_ms
      ∷ integer_param now_ms
      ∷ bind_optional_text forked_from
      ∷ bind_optional_text fork_offset
      ∷ bind_optional_int fork_sub_offset
      ∷ bind_optional_text fork_edge_id
      ∷ bind_optional_text fork_source_gen
      ∷ []

  -- What the SELECT of `get_meta` finds after the INSERT of `create_meta`.
  unfoldable pub created_row : List ColumnValue
  unfolding create_params inserted column_value
  created_row = map (column_value (inserted insert_columns insert_values create_params)) meta_select

optional_text-stored :
    (value : Option Text) → optional_text (some (stored (bind_optional_text value))) ≡ ok value
unfolding optional_text stored bind_optional_text
optional_text-stored none = refl
optional_text-stored (some value) = refl

optional_int-stored :
    (value : Option ℤ) → optional_int (some (stored (bind_optional_int value))) ≡ ok value
unfolding optional_int stored bind_optional_int
optional_int-stored none = refl
optional_int-stored (some value) = refl

is_set-from_bool : (closed : Bool) → is_set (from_bool closed) ≡ closed
unfolding is_set
is_set-from_bool true = refl
is_set-from_bool false = refl

module _ (generation : Text) (content_type : Option Text) (ttl_seconds : Option ℤ)
    (expires_at : Option Text) (closed : Bool) (now_ms : ℤ) (forked_from fork_offset : Option Text)
    (fork_sub_offset : Option ℤ) (fork_edge_id fork_source_gen : Option Text) where
  -- The columns that `get_meta` selects of the row that `create_meta` inserts are read as the
  -- stream that was to be created, each of its fields from the parameter bound for it.
  pub parse_meta-created_row :
      parse_meta (
        created_row generation content_type ttl_seconds expires_at closed now_ms forked_from
          fork_offset fork_sub_offset fork_edge_id fork_source_gen)
      ≡ ok (
          new_meta generation content_type ttl_seconds expires_at closed now_ms forked_from
            fork_offset fork_sub_offset fork_edge_id fork_source_gen)
  unfolding parse_meta created_row create_params inserted column_value get text int new_meta
  parse_meta-created_row =
      rw
        (
          optional_text-stored content_type,
          optional_int-stored ttl_seconds,
          optional_text-stored expires_at,
          optional_text-stored forked_from,
          optional_text-stored fork_offset,
          optional_int-stored fork_sub_offset,
          optional_text-stored fork_edge_id,
          optional_text-stored fork_source_gen,
          is_set-from_bool closed,
        )
        refl
