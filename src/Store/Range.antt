-- ===== src/Store/Range.antt =====
-- src/store.rs: `read_messages_range`.
pub mod Scan
pub mod Pages
pub mod Limits
pub mod Resume
use rivet_durable_streams.Prelude.{
  ℕ, zero, suc, ◌+◌, min, Bool, true, false, not, ◌&&◌, ◌||◌, Text, List, [], ◌∷◌, Option, none,
  some, text_eq, text_lt, text_le, if◌then◌else◌, length, take, select, codes, filter_option,
  unwrap_or, is_none_or, ltb, ◌==◌,
}
use rivet_durable_streams.Protocol.Decimal.{u64_max}
use rivet_durable_streams.Store.Tables.{Message, Db}

abbrev pub max_read_rows : ℕ
max_read_rows = 128

abbrev pub max_read_bytes : ℕ
max_read_bytes = 4194304

pub record ReadBatch : Type 0 where
  pub messages : List Message
  pub capped : Bool

abbrev pub empty_batch : ReadBatch
empty_batch = record { messages = []; capped = false }

-- `usize::saturating_add`
unfoldable pub saturating_add_usize : ℕ → ℕ → ℕ
saturating_add_usize a b = min (a + b) u64_max

-- `after_offset.filter(|value| *value != "-1")`
unfoldable pub normalized : Option Text → Option Text
normalized after_offset = filter_option (λ value. not (text_eq value (codes "-1"))) after_offset

-- `msg_offset > after AND msg_offset <= cap`
unfoldable pub in_range : Text → Option Text → Message → Bool
in_range after cap m = text_lt after m.offset && is_none_or cap (λ c. text_le m.offset c)

-- The loop over the row lengths: how many rows are taken, and the offset of the last.
unfoldable pub scan : ℕ → ℕ → Bool → ℕ → ℕ → Option Text → List Message → ℕ × Option Text
unfolding saturating_add_usize
scan limit byte_budget allow_oversized_first selected bytes last_offset [] = (selected, last_offset)
scan limit byte_budget allow_oversized_first selected bytes last_offset (row ∷ rows) =
    let size = length row.content in
    let rest =
      scan limit byte_budget allow_oversized_first (selected + 1) (saturating_add_usize bytes size)
        (some row.offset) rows in
    if selected == limit
    then (selected, last_offset)
    else if (ltb 0 selected || not allow_oversized_first)
        && ltb byte_budget (saturating_add_usize bytes size)
    then (selected, last_offset)
    else rest

-- The second query: the rows up to the last offset taken.
unfoldable pub batch_upto : List Message → ℕ → ℕ → Option Text → ReadBatch
unfolding select
batch_upto rows scanned selected last_offset = elim last_offset [
  | none ↦ record { messages = []; capped = ltb selected scanned }
  | some last_offset ↦ record {
    messages = select (λ m. text_le m.offset last_offset) rows;
    capped = ltb selected scanned;
  }
]

unfoldable pub read_messages_range : Option Text → Option Text → ℕ → ℕ → Bool → Db → ReadBatch
unfolding normalized in_range scan batch_upto
read_messages_range after_offset cap_offset limit byte_budget allow_oversized_first db =
    let after = unwrap_or (normalized after_offset) [] in
    let rows = select (in_range after cap_offset) db.messages in
    let lengths = take (min (saturating_add_usize limit 1) (max_read_rows + 1)) rows in
    let (selected, last_offset) = scan limit byte_budget allow_oversized_first 0 0 none lengths in
    batch_upto rows (length lengths) selected last_offset
