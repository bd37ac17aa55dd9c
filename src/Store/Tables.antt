-- ===== src/Store/Tables.antt =====
-- src/store.rs: the tables of one actor's SQLite database and the statements on them.
-- A table is a list of its rows in the order of its primary key, which is text: BINARY collation.
pub mod Laws
use rivet_durable_streams.Prelude.{
  ℕ, Bool, true, false, not, ◌||◌, ℤ, Text, Bytes, List, [], ◌∷◌, Option, none, some, text_lt,
  text_eq, if◌then◌else◌, select, Result, ok, err,
}

pub record Meta : Type 0 where
  pub generation : Text
  pub content_type : Option Text
  pub ttl_seconds : Option ℤ
  pub expires_at : Option Text
  pub closed : Bool
  pub closed_by : Option Text
  pub current_offset : Text
  pub last_seq : Option Text
  pub created_at : ℤ
  pub last_accessed_at : ℤ
  pub forked_from : Option Text
  pub fork_offset : Option Text
  pub fork_sub_offset : Option ℤ
  pub fork_edge_id : Option Text
  pub fork_source_gen : Option Text
  pub soft_deleted : Bool

-- A row of `messages`: `StoredMessage` with its time.
pub record Message : Type 0 where
  pub offset : Text
  pub content : Bytes
  pub ts : ℤ

-- `epoch` and `last_seq` are the non-negative integers that `parse_producer` accepts.
pub record ProducerState : Type 0 where
  pub epoch : ℕ
  pub last_seq : ℕ
  pub last_updated : ℤ

pub record ProducerRow : Type 0 where
  pub producer_id : Text
  pub state : ProducerState

pub record ForkEdge : Type 0 where
  pub edge_id : Text
  pub fork_offset : Text

pub record ForkIntent : Type 0 where
  pub edge_id : Text
  pub parent_path : Text
  pub params_key : Text

pub record GcRelease : Type 0 where
  pub edge_id : Text
  pub parent_path : Text
  pub source_generation : Option Text

-- `meta` has at most the row with id 1.
pub record Db : Type 0 where
  pub meta : Option Meta
  pub messages : List Message
  pub producers : List ProducerRow
  pub fork_edges : List ForkEdge
  pub fork_intents : List ForkIntent
  pub gc_releases : List GcRelease

abbrev pub empty_db : Db
empty_db = record {
  meta = none;
  messages = [];
  producers = [];
  fork_edges = [];
  fork_intents = [];
  gc_releases = [];
}

module _ {A : Type 0} (key : A → Text) where
  -- SELECT … WHERE key = ?, of which there is at most one row.
  unfoldable pub find_row : Text → List A → Option A
  find_row k [] = none
  find_row k (x ∷ xs) = if text_eq (key x) k then some x else find_row k xs

  unfoldable pub has_row : Text → List A → Bool
  has_row k [] = false
  has_row k (x ∷ xs) = text_eq (key x) k || has_row k xs

  -- DELETE … WHERE key = ?
  unfoldable pub delete_row : Text → List A → List A
  unfolding select
  delete_row k = select (λ x. not (text_eq (key x) k))

  -- A new row goes where its key belongs.
  unfoldable pub place_row : A → List A → List A
  place_row row [] = row ∷ []
  place_row row (x ∷ xs) = if text_lt (key row) (key x) then row ∷ x ∷ xs else x ∷ place_row row xs

  -- INSERT fails on a key that is taken, and INSERT OR IGNORE then does nothing.
  unfoldable pub insert_row : A → List A → Result (List A)
  insert_row row xs =
      if has_row (key row) xs then err "UNIQUE constraint failed" else ok (place_row row xs)

  unfoldable pub insert_or_ignore : A → List A → List A
  insert_or_ignore row xs = if has_row (key row) xs then xs else place_row row xs

  -- INSERT … ON CONFLICT(key) DO UPDATE SET all other columns.
  unfoldable pub upsert_row : A → List A → List A
  unfolding delete_row
  upsert_row row xs = place_row row (delete_row (key row) xs)
