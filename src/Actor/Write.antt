-- ===== src/Actor/Write.antt =====
-- src/actor/write.rs: the transaction of an append.
pub mod Post
pub mod Put
pub mod Appends
pub mod Effect
pub mod Progress
pub mod Sequence
pub mod Retry
use rivet_durable_streams.Prelude.{
  ℕ, Bool, true, false, not, ◌&&◌, ◌||◌, ℤ, pos, String, Text, Bytes, List, [], ◌∷◌, ◌⊎◌, inl, inr,
  leb, Option, none, some, ltb, if◌then◌else◌, is_empty, is_some_and, text_eq, text_le, codes,
  length, saturating_sub, Result, ok, err, ◌>>=◌,
}
use rivet_durable_streams.Protocol.Content.{normalize_content_type}
use rivet_durable_streams.Protocol.Json.{process_json_append}
use rivet_durable_streams.Protocol.Http.{Request, Response, text_response}
use rivet_durable_streams.Store.Tables.{Meta, ProducerState, Db}
use rivet_durable_streams.Store.Meta.{set_last_seq, set_closed, touch}
use rivet_durable_streams.Store.Append.{append_message}
use rivet_durable_streams.Store.Producers.{get_producer_state, commit_producer_state}
use rivet_durable_streams.Store.Platform.{ClosedBy}
use rivet_durable_streams.Actor.Types.{
  Env, ProducerHeaders, ProducerValidation, accepted, max_body_bytes, producer_state_ttl_ms,
}
use rivet_durable_streams.Actor.Producer.{validate_producer, producer_failure, producer_success}

-- How a transaction of a write ends. After a rollback the tables are those from before it.
pub data Settled : Type 0 where
  committed : Response → Settled
  rolled_back : Response → Settled

abbrev pub reply : ℕ → String → Response
reply status message = text_response status (codes message) []

unfoldable pub is_json : Option Text → Bool
unfolding normalize_content_type
is_json content_type = text_eq (normalize_content_type content_type) (codes "application/json")

-- The producer's state to commit, or the answer to a request that is not its next.
pub data Admission : Type 0 where
  admitted : Option ProducerState → Db → Admission
  refused : ProducerValidation → Admission

unfoldable pub admit_state : ProducerValidation → Db → Admission
admit_state (accepted state) db = admitted (some state) db
admit_state failure db = refused failure

unfoldable pub admit : Option ProducerHeaders → ℤ → Db → Admission
unfolding get_producer_state validate_producer admit_state saturating_sub
admit none now db = admitted none db
admit (some producer) now db =
    let (prior, after) =
      get_producer_state producer.id (saturating_sub now (pos producer_state_ttl_ms)) db in
    admit_state (validate_producer prior producer now) after

unfoldable pub commit_state : Option ProducerHeaders → Option ProducerState → Db → Db
unfolding commit_producer_state
commit_state (some producer) (some state) db = commit_producer_state producer.id state db
commit_state _ _ db = db

unfoldable pub commit_seq : Option Text → Db → Db
unfolding set_last_seq
commit_seq none db = db
commit_seq (some seq) db = set_last_seq seq db

module _ (env : Env) where
  unfoldable pub closed_by_text : Option ProducerHeaders → Option Text
  closed_by_text none = none
  closed_by_text (some producer) = some (
      env.platform.closed_by_to_text
        (record { producer_id = producer.id; epoch = producer.epoch; seq = producer.seq }))

  unfoldable pub commit_close : Bool → Option ProducerHeaders → Db → Db
  unfolding set_closed closed_by_text
  commit_close close_stream producer db =
      if close_stream then set_closed (closed_by_text producer) db else db

  -- The writes of an append that nothing refuses.
  unfoldable pub append_all :
      Bytes
      → Option ProducerHeaders
      → Option ProducerState
      → Option Text
      → Bool
      → ℤ
      → Text
      → Db
      → Result (Settled × Db)
  unfolding append_message commit_state commit_seq commit_close touch producer_success
  append_all payload producer state seq close_stream now current_offset db = do
    (new_offset, appended) ← append_message current_offset payload now db
    let written =
        commit_close close_stream producer (commit_seq seq (commit_state producer state appended))
    ok (committed (producer_success new_offset producer close_stream), touch now written)

  -- `Stream-Seq` must grow as bytes. The bool says that it does not.
  unfoldable pub seq_conflict : Option Text → Option Text → Result Bool
  seq_conflict (some last) (some next) = elim (env.platform.url_decode last) [
    | none ↦ err "invalid base64"
    | some last_bytes ↦ elim (env.platform.url_decode next) [
      | none ↦ err "invalid base64"
      | some next_bytes ↦ ok (text_le next_bytes last_bytes)
    ]
  ]
  seq_conflict _ _ = ok false

  -- The answer to a producer's request that is not its next.
  unfoldable pub refuse :
      Option ProducerHeaders → ProducerValidation → Meta → Db → Result (Settled × Db)
  unfolding producer_failure
  refuse none failure fresh before = err "accepted producer used as failure"
  refuse (some producer) failure fresh before = do
    answer ← producer_failure failure producer fresh false
    ok (rolled_back answer, before)

  unfoldable pub append_unless :
      Bool
      → Bytes
      → Option ProducerHeaders
      → Option ProducerState
      → Option Text
      → Bool
      → ℤ
      → Meta
      → Db
      → Db
      → Result (Settled × Db)
  unfolding append_all
  append_unless true payload producer state seq close_stream now fresh before db =
      ok (rolled_back (reply 409 "Sequence conflict"), before)
  append_unless false payload producer state seq close_stream now fresh before db =
      append_all payload producer state seq close_stream now fresh.current_offset db

  unfoldable pub append_admitted :
      Bytes
      → Option ProducerHeaders
      → Option Text
      → Bool
      → ℤ
      → Meta
      → Db
      → Admission
      → Result (Settled × Db)
  unfolding seq_conflict append_unless refuse
  append_admitted payload producer seq close_stream now fresh before (refused failure) =
      refuse producer failure fresh before
  append_admitted payload producer seq close_stream now fresh before (admitted state db) = do
    conflict ← seq_conflict fresh.last_seq seq
    append_unless conflict payload producer state seq close_stream now fresh before db

  unfoldable pub append_fresh :
      Bytes
      → Option ProducerHeaders
      → Option Text
      → Bool
      → ℤ
      → Db
      → Option Meta
      → Result (Settled × Db)
  unfolding append_admitted admit
  append_fresh payload producer seq close_stream now db none =
      ok (rolled_back (reply 404 "Stream not found"), db)
  append_fresh payload producer seq close_stream now db (some fresh) =
      append_admitted payload producer seq close_stream now fresh db (admit producer now db)

  -- The transaction of an append.
  unfoldable pub append_tx :
      Bytes → Option ProducerHeaders → Option Text → Bool → ℤ → Db → Result (Settled × Db)
  unfolding append_fresh
  append_tx payload producer seq close_stream now db =
      append_fresh payload producer seq close_stream now db db.meta

  -- A JSON body's stored form, or the answer to a body that is refused.
  unfoldable pub json_payload : Bytes → Bool → Response ⊎ Bytes
  unfolding process_json_append text_response
  json_payload body initial_create = elim (process_json_append env.platform body initial_create) [
    | ok payload ↦
        if leb (length payload) max_body_bytes
        then inr payload
        else inl (reply 413 "Payload too large")
    | err message ↦ inl (reply 400 message)
  ]
