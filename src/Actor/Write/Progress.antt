-- ===== src/Actor/Write/Progress.antt =====
-- Which appends of src/actor/write.rs commit.
use rivet_durable_streams.Prelude.{
  ℕ, ◌+◌, ◌<◌, ◌≡◌, ap, ◌∙◌, Bool, false, ℤ, Text, Bytes, Option, some, length, Result, ok, ◌>>=◌,
}
use rivet_durable_streams.Protocol.Offset.Order.{offset_text, limit}
use rivet_durable_streams.Store.Tables.{Meta, ProducerState, Db}
use rivet_durable_streams.Store.Append.{append_message}
use rivet_durable_streams.Store.Append.Order.{IsLog, appended, append_message-IsLog}
use rivet_durable_streams.Actor.Types.{Env, ProducerHeaders}
use rivet_durable_streams.Actor.Producer.{producer_success}
use rivet_durable_streams.Actor.Write.{
  Settled, committed, admitted, admit, seq_conflict, append_all, append_unless, append_admitted,
  append_fresh, append_tx,
}
use rivet_durable_streams.Actor.Write.Effect.{admit_frame}
use rivet_durable_streams.Actor.Write.Appends.{written}

-- On a log below the offset limit an append commits when the producer's request is admitted and
-- `Stream-Seq` is no conflict; the answer tells the offset 5 and the payload's length further on.
pub append_tx_commits :
    (env : Env) (payload : Bytes) (producer : Option ProducerHeaders) (seq : Option Text)
    (close_stream : Bool) (now : ℤ) (fresh : Meta) (r b : ℕ) (db before : Db)
    (state : Option ProducerState)
    → db.meta ≡ some fresh
    → fresh.current_offset ≡ offset_text r b
    → r < limit
    → b + 5 + length payload < limit
    → IsLog fresh.current_offset db.messages
    → admit producer now db ≡ admitted state before
    → seq_conflict env fresh.last_seq seq ≡ ok false
    → (after : Db) × (append_tx env payload producer seq close_stream now db
        ≡ ok (
          committed
              (producer_success (offset_text r (b + 5 + length payload)) producer close_stream),
          after,
        ))
unfolding append_tx append_fresh append_admitted append_unless append_all
append_tx_commits env payload producer seq close_stream now fresh r b db before state m t hr hb log
      a s =
    let next = offset_text r (b + 5 + length payload) in
    let same : before.messages ≡ db.messages =
      ap (λ (d : Db). d.messages) (admit_frame producer now db before state a) in
    let log' : IsLog (offset_text r b) before.messages = rw (same, ← t) log in
    let (stored, _, _) = append_message-IsLog r b payload now before hr hb log' in
    let ends : Text × Db → Result (Settled × Db) = λ stored. ok (
      committed (producer_success stored.0 producer close_stream),
      written env producer state seq close_stream now stored.1,
    ) in
    (
      written env producer state seq close_stream now (appended next payload now before),
      ap (append_fresh env payload producer seq close_stream now db) m
          ∙ ap (append_admitted env payload producer seq close_stream now fresh db) a
          ∙ ap
              (λ c. c >>= λ conflict.
                append_unless env conflict payload producer state seq close_stream now fresh db
                  before)
              s
          ∙ ap (λ o. append_message o payload now before >>= ends) t
          ∙ ap (λ r. r >>= ends) stored,
    )
