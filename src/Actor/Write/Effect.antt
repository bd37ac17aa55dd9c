-- ===== src/Actor/Write/Effect.antt =====
-- The transaction of an append in src/actor/write.rs: the tables after a commit.
use rivet_durable_streams.Prelude.{
  ℕ, ◌+◌, ◌<◌, ◌≡◌, sym, ap, ◌∙◌, Bool, ◌||◌, ℤ, Text, Bytes, [], ◌∷◌, ◌++◌, Option, none, some,
  or_else, if◌then◌else◌, length, ok, ok_injective, arith,
}
use rivet_durable_streams.Protocol.Http.{Response}
use rivet_durable_streams.Protocol.Offset.Order.{offset_text, limit}
use rivet_durable_streams.Store.Tables.{Meta, ProducerState, Db}
use rivet_durable_streams.Store.Meta.{update_meta, touch}
use rivet_durable_streams.Store.Append.{append_message}
use rivet_durable_streams.Store.Append.Order.{IsLog, appended, append_message-IsLog}
use rivet_durable_streams.Store.Producers.{get_producer_state}
use rivet_durable_streams.Actor.Types.{Env, ProducerHeaders}
use rivet_durable_streams.Actor.Producer.{producer_success}
use rivet_durable_streams.Actor.Write.{
  committed, admitted, admit, admit_state, closed_by_text, commit_state, commit_seq, commit_close,
  append_tx,
}
use rivet_durable_streams.Actor.Write.Appends.{written, append_tx-committed}

-- Admission touches the producers only.
pub admit_frame :
    (producer : Option ProducerHeaders) (now : ℤ) (db before : Db) (state : Option ProducerState)
    → admit producer now db ≡ admitted state before
    → before ≡ record db { producers = before.producers }
unfolding admit admit_state get_producer_state
admit_frame none now db before state h = ground arith
admit_frame (some producer) now db before state h = ground arith

module _ (env : Env) (producer : Option ProducerHeaders) (state : Option ProducerState)
    (seq : Option Text) (close_stream : Bool) (now : ℤ) where
  pub messages-written :
      (db : Db) → (written env producer state seq close_stream now db).messages ≡ db.messages
  unfolding touch commit_close commit_seq commit_state
  messages-written db = ground arith

  pub fork_edges-written :
      (db : Db) → (written env producer state seq close_stream now db).fork_edges ≡ db.fork_edges
  unfolding touch commit_close commit_seq commit_state
  fork_edges-written db = ground arith

  -- The `meta` row after an append to the tail `next`.
  abbrev pub meta_after : Text → Meta → Meta
  meta_after next fresh = record fresh {
    current_offset = next;
    last_seq = or_else seq fresh.last_seq;
    closed = close_stream || fresh.closed;
    closed_by =
        if close_stream
        then or_else (closed_by_text env producer) fresh.closed_by
        else fresh.closed_by;
    last_accessed_at = now;
  }

  pub meta-written :
      (db : Db) (m : Meta)
      → db.meta ≡ some m
      → (written env producer state seq close_stream now db).meta
        ≡ some (meta_after m.current_offset m)
  unfolding touch commit_close commit_seq commit_state
  meta-written db m h = ground arith

meta-appended :
    (next : Text) (payload : Bytes) (now : ℤ) (db : Db) (fresh : Meta)
    → db.meta ≡ some fresh
    → (appended next payload now db).meta ≡ some (record fresh { current_offset = next })
unfolding update_meta
meta-appended next payload now db fresh h = ground arith

fork_edges-appended :
    (next : Text) (payload : Bytes) (now : ℤ) (db : Db)
    → (appended next payload now db).fork_edges ≡ db.fork_edges
unfolding update_meta
fork_edges-appended next payload now db = ground arith

-- On a log below the offset limit, a committed POST puts its payload, whole, behind the messages
-- that were there; the log stays ordered, the tail moves to the new message, and of the `meta` row
-- only the tail, `last_seq`, the closure and the access time change. The answer tells the new
-- tail.
pub append_tx_appends :
    (env : Env) (payload : Bytes) (producer : Option ProducerHeaders) (seq : Option Text)
    (close_stream : Bool) (now : ℤ) (fresh : Meta) (r b : ℕ) (db : Db) (answer : Response)
    (after : Db)
    → db.meta ≡ some fresh
    → fresh.current_offset ≡ offset_text r b
    → r < limit
    → b + 5 + length payload < limit
    → IsLog fresh.current_offset db.messages
    → append_tx env payload producer seq close_stream now db ≡ ok (committed answer, after)
    → let next = offset_text r (b + 5 + length payload) in
      (after.messages ≡ db.messages ++ record { offset = next; content = payload; ts = now } ∷ [])
      × IsLog next after.messages
      × (after.meta ≡ some (meta_after env producer none seq close_stream now next fresh))
      × (after.fork_edges ≡ db.fork_edges)
      × (answer ≡ producer_success next producer close_stream)
append_tx_appends env payload producer seq close_stream now fresh r b db answer after m t hr hb log
      h =
    let next = offset_text r (b + 5 + length payload) in
    let c =
      append_tx-committed env payload producer seq close_stream now fresh db answer after m h in
    let frame = admit_frame producer now db c.before c.state c.is_admitted in
    let same : c.before.messages ≡ db.messages = ap (λ (d : Db). d.messages) frame in
    let log' : IsLog (offset_text r b) c.before.messages = rw (same, ← t) log in
    let (stored, messages, ordered) = append_message-IsLog r b payload now c.before hr hb log' in
    let got =
      ok_injective {A = Text × Db} (c.offset, c.appended) (next, appended next payload now c.before)
        (sym c.stored ∙ ap (λ (o : Text). append_message o payload now c.before) t ∙ stored) in
    let offset : c.offset ≡ next = ap (λ (x : Text × Db). x.0) got in
    let rows : c.appended ≡ appended next payload now c.before = ap (λ (x : Text × Db). x.1) got in
    let final : after
        ≡ written env producer c.state seq close_stream now (appended next payload now c.before) =
      c.ends ∙ ap (written env producer c.state seq close_stream now) rows in
    let all_messages : after.messages ≡ (appended next payload now c.before).messages =
      ap (λ (d : Db). d.messages) final
      ∙ messages-written env producer c.state seq close_stream now
          (appended next payload now c.before) in
    (
      all_messages
          ∙ messages
          ∙ ap (λ ms. ms ++ record { offset = next; content = payload; ts = now } ∷ []) same,
      rw all_messages ordered,
      ap (λ (d : Db). d.meta) final
          ∙ meta-written env producer c.state seq close_stream now
              (appended next payload now c.before) _
              (meta-appended next payload now c.before fresh (ap (λ (d : Db). d.meta) frame ∙ m)),
      ap (λ (d : Db). d.fork_edges) final
          ∙ fork_edges-written env producer c.state seq close_stream now
              (appended next payload now c.before)
          ∙ fork_edges-appended next payload now c.before
          ∙ ap (λ (d : Db). d.fork_edges) frame,
      c.answered ∙ ap (λ o. producer_success o producer close_stream) offset,
    )
