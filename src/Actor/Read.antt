-- ===== src/Actor/Read.antt =====
-- src/actor/read.rs and the `ReadRange` action of src/actor.rs: reads, which take no lock between
-- their queries. The two queries of one `read_messages_range` see the same tables here.
pub mod Reply
pub mod Events
pub mod Query
pub mod Get
pub mod Pump
pub mod Race
pub mod Resume
pub mod Ends
pub mod Stitched
use rivet_durable_streams.Prelude.{
  ℕ, zero, suc, ◌-◌, ◌+◌, min, Bool, true, false, not, ◌&&◌, ◌||◌, ℤ, String, Text, Bytes, List, [],
  ◌∷◌, ◌++◌, map, ◌⊎◌, inl, inr, Option, none, some, ltb, leb, ◌==◌, if◌then◌else◌, is_empty,
  is_none_or, is_some_and, unwrap_or, filter_option, text_eq, text_lt, codes, length, last, Result,
  ok, err,
}
use rivet_durable_streams.Protocol.Json.{concatenate, format_json_messages}
use rivet_durable_streams.Protocol.Http.{
  Headers, Request, Response, response, insert_header, remove_header, public_header_text,
}
use rivet_durable_streams.Store.Tables.{Meta, Message, Db}
use rivet_durable_streams.Store.Range.{
  ReadBatch, empty_batch, max_read_rows, max_read_bytes, normalized, read_messages_range,
}
use rivet_durable_streams.Actor.Types.{Env, World, ReadRange, ReadSnapshot}
use rivet_durable_streams.Actor.Exec.{Exec, pure, raise, lift, ◌>>=◌, ◌>>◌, get_db, call, pause}
use rivet_durable_streams.Actor.Maintenance.{source_handle}
use rivet_durable_streams.Actor.Tags.{metadata_headers, make_etag}
use rivet_durable_streams.Actor.Lifecycle.{visible_meta, touch_access}
use rivet_durable_streams.Actor.Write.{is_json}

-- The source and the fork offset, where a read begins before the fork.
unfoldable pub inherits : Meta → Option Text → Option (Text × Text)
inherits meta after = elim meta.forked_from [
  | none ↦ none
  | some parent_path ↦ elim meta.fork_offset [
    | none ↦ none
    | some fork_offset ↦
        if is_none_or after (λ offset. text_lt offset fork_offset)
        then some (parent_path, fork_offset)
        else none
  ]
]

-- The bytes of some messages.
unfoldable pub total_size : List Message → ℕ
total_size [] = 0
total_size (m ∷ ms) = length m.content + total_size ms

-- The stream's own messages behind the inherited ones.
unfoldable pub own_batch : Option Text → Option Text → ℕ → ℕ → List Message → Db → ReadBatch
unfolding read_messages_range
own_batch after cap limit remaining messages db =
    let own =
      read_messages_range after cap (limit - length messages) remaining (is_empty messages) db in
    record { messages = messages ++ own.messages; capped = own.capped }

-- Whether the inherited part of a read fills it.
unfoldable pub is_full : ReadBatch → ℕ → ℕ → Bool
is_full inherited limit remaining =
    inherited.capped
    || leb limit (length inherited.messages)
    || (remaining == 0 && not (is_empty inherited.messages))

module _ (env : Env) where
  -- One attempt; `none` asks for another, with the stream that is there now.
  unfoldable pub after_inherited :
      Meta
      → Option Text
      → Option Text
      → ℕ
      → ℕ
      → ReadBatch
      → Option Meta
      → Exec env.Rest (ReadBatch ⊎ Meta)
  unfolding total_size is_full own_batch
  after_inherited meta after cap limit budget inherited none = pure (inl empty_batch)
  after_inherited meta after cap limit budget inherited (some current) =
      if not (text_eq current.generation meta.generation)
      then pure (inr current)
      else let remaining = budget - total_size inherited.messages in
        if is_full inherited limit remaining
        then pure (inl (record { messages = inherited.messages; capped = true }))
        else do
          pause env.during
          db ← get_db
          pure (inl (own_batch after cap limit remaining inherited.messages db))

  unfoldable pub read_part :
      Meta
      → Option Text
      → Option Text
      → ℕ
      → ℕ
      → Option (Text × Text)
      → Exec env.Rest (ReadBatch ⊎ Meta)
  unfolding source_handle call pause after_inherited own_batch
  read_part meta after cap limit budget none = do
    db ← get_db
    pure (inl (own_batch after cap limit budget [] db))
  read_part meta after cap limit budget (some (parent_path, fork_offset)) = do
    handle ← source_handle env parent_path
    reply ← call (
        env.read_range handle (record {
          after_offset = after;
          cap_offset = unwrap_or (filter_option (λ c. text_lt c fork_offset) cap) fork_offset;
          limit = some limit;
          byte_budget = some budget;
        }))
    inherited ← lift reply
    pause env.during
    db ← get_db
    after_inherited meta after cap limit budget inherited db.meta

  -- A stream that was replaced while the source was read is read anew, on fuel.
  unfoldable pub read_stitched :
      ℕ → Meta → Option Text → Option Text → ℕ → ℕ → Exec env.Rest ReadBatch
  unfolding inherits normalized read_part
  read_stitched zero meta after_offset cap_offset limit byte_budget = raise "out of fuel"
  read_stitched (suc fuel) meta after_offset cap_offset limit byte_budget = do
    let after = normalized after_offset
    part ←
        read_part meta after cap_offset (min limit max_read_rows) (min byte_budget max_read_bytes)
          (inherits meta after)
    elim part [
      | inl batch ↦ pure batch
      | inr current ↦ read_stitched fuel current after_offset cap_offset limit byte_budget
    ]

  -- The `ReadRange` action.
  unfoldable pub handle_read_range : ℕ → ReadRange → Exec env.Rest ReadBatch
  unfolding read_stitched
  handle_read_range fuel action = do
    db ← get_db
    elim db.meta [
      | none ↦ pure empty_batch
      | some meta ↦
          read_stitched fuel meta action.after_offset (some action.cap_offset)
            (unwrap_or action.limit max_read_rows) (unwrap_or action.byte_budget max_read_bytes)
    ]

  unfoldable pub snapshot_of :
      Meta → ReadBatch → ℤ → Option Meta → Exec env.Rest (Option ReadSnapshot)
  unfolding touch_access
  snapshot_of meta batch later none = pure none
  snapshot_of meta batch later (some fresh) =
      if not (text_eq fresh.generation meta.generation)
      then pure none
      else do touch_access env later; pure (some (record { meta = fresh; batch = batch }))

  unfoldable pub snapshot_visible :
      ℕ → Option Text → Option Text → ℤ → Option Meta → Exec env.Rest (Option ReadSnapshot)
  unfolding pause read_stitched snapshot_of
  snapshot_visible fuel offset expected_generation later none = pure none
  snapshot_visible fuel offset expected_generation later (some meta) =
      if is_some_and expected_generation (λ g. not (text_eq g meta.generation))
      then pure none
      else do
        pause env.during
        batch ← read_stitched fuel meta offset none max_read_rows max_read_bytes
        pause env.during
        db ← get_db
        snapshot_of meta batch later db.meta

  -- `free` says that a permit of the semaphore is free; `now` and `later` are the clock's values.
  unfoldable pub read_snapshot :
      ℕ → Bool → Option Text → Option Text → ℤ → ℤ → Exec env.Rest (Option ReadSnapshot)
  unfolding visible_meta snapshot_visible
  read_snapshot fuel free offset expected_generation now later =
      if not free then raise "too many concurrent reads" else do
        meta ← visible_meta env now
        snapshot_visible fuel offset expected_generation later meta
