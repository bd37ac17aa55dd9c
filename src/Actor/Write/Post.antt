-- ===== src/Actor/Write/Post.antt =====
-- src/actor/write.rs: `handle_post` and `handle_close_only`.
use rivet_durable_streams.Prelude.{
  Bool, true, false, not, ◌&&◌, ◌⊎◌, inl, inr, ℤ, Text, Bytes, [], ◌∷◌, Option, none, some, ltb,
  if◌then◌else◌, is_empty, is_some_and, text_eq, codes, length, Result, ok, err,
}
use rivet_durable_streams.Protocol.Content.{normalize_content_type}
use rivet_durable_streams.Protocol.Http.{
  Request, Response, text_response, public_header_bytes, public_header_text, header_is_true,
}
use rivet_durable_streams.Store.Tables.{Meta, Db}
use rivet_durable_streams.Store.Meta.{set_closed, touch}
use rivet_durable_streams.Actor.Types.{Env, ProducerHeaders, max_body_bytes}
use rivet_durable_streams.Actor.Exec.{
  Exec, pure, lift, ◌>>=◌, ◌>>◌, transact, commit, notify_change,
}
use rivet_durable_streams.Actor.Lifecycle.{visible_meta}
use rivet_durable_streams.Actor.Producer.{
  parse_producer, closed_by_matches, producer_failure, close_success,
}
use rivet_durable_streams.Actor.Write.{
  Settled, committed, rolled_back, reply, Admission, admitted, refused, admit, closed_by_text,
  commit_state, append_tx, json_payload, is_json,
}

module _ (env : Env) where
  unfoldable pub settle : Settled → Exec env.Rest Response
  unfolding notify_change
  settle (committed answer) = do notify_change; pure answer
  settle (rolled_back answer) = pure answer

  -- The answer of a closed stream: only the producer that closed it is told of success.
  unfoldable pub answer_closed : Meta → Option ProducerHeaders → Response
  unfolding closed_by_matches close_success text_response
  answer_closed meta producer =
      if is_some_and producer (closed_by_matches env.platform meta)
      then close_success meta.current_offset producer
      else text_response 409 (codes "Stream is closed")
          (("stream-closed", codes "true") ∷ ("stream-next-offset", meta.current_offset) ∷ [])

  -- The transaction of a close by a producer.
  unfoldable pub close_admitted :
      Meta → ProducerHeaders → ℤ → Db → Admission → Result (Settled × Db)
  unfolding commit_state set_closed closed_by_text touch close_success producer_failure
  close_admitted meta producer now before (admitted state db) = ok (
    committed (close_success meta.current_offset (some producer)),
    touch now
        (set_closed (closed_by_text env (some producer)) (commit_state (some producer) state db)),
  )
  close_admitted meta producer now before (refused failure) =
      elim (producer_failure failure producer meta true) [
        | ok answer ↦ ok (rolled_back answer, before)
        | err e ↦ err e
      ]

  unfoldable pub close_tx : Meta → ProducerHeaders → ℤ → Db → Result (Settled × Db)
  unfolding close_admitted admit
  close_tx meta producer now db = close_admitted meta producer now db (admit (some producer) now db)

  unfoldable pub close_live : Meta → Option ProducerHeaders → ℤ → Exec env.Rest Response
  unfolding commit set_closed touch notify_change close_success answer_closed transact close_tx
      settle
  close_live meta none now = do
    commit (λ db. touch now (set_closed none db))
    notify_change
    pure (close_success meta.current_offset none)
  close_live meta (some producer) now =
      if meta.closed
      then pure (answer_closed meta (some producer))
      else do settled ← transact (close_tx meta producer now); settle settled

  unfoldable pub close_visible : Option ProducerHeaders → ℤ → Option Meta → Exec env.Rest Response
  unfolding close_live
  close_visible producer now none = pure (reply 404 "Stream not found")
  close_visible producer now (some meta) =
      if meta.soft_deleted then pure (reply 410 "Stream is gone") else close_live meta producer now

  unfoldable pub handle_close_only : Option ProducerHeaders → ℤ → Exec env.Rest Response
  unfolding visible_meta close_visible
  handle_close_only producer now = do meta ← visible_meta env now; close_visible producer now meta

  -- The bytes to append, or the answer to a body that is refused.
  unfoldable pub post_payload : Meta → Bytes → Response ⊎ Bytes
  unfolding is_json json_payload
  post_payload meta body =
      if is_json meta.content_type then json_payload env body false else inr body

  unfoldable pub post_bytes :
      Option ProducerHeaders → Option Text → Bool → ℤ → Response ⊎ Bytes → Exec env.Rest Response
  unfolding transact append_tx settle
  post_bytes producer seq close_stream now (inl answer) = pure answer
  post_bytes producer seq close_stream now (inr payload) = do
    settled ← transact (append_tx env payload producer seq close_stream now)
    settle settled

  unfoldable pub post_live :
      Bytes
      → Option ProducerHeaders
      → Text
      → Option Bytes
      → Bool
      → ℤ
      → Meta
      → Exec env.Rest Response
  unfolding answer_closed normalize_content_type post_bytes post_payload
  post_live body producer content_type seq close_stream now meta =
      if meta.soft_deleted
      then pure (reply 410 "Stream is gone")
      else if meta.closed
      then pure (answer_closed meta producer)
      else if not (
          text_eq (normalize_content_type (some content_type))
            (normalize_content_type meta.content_type))
      then pure (reply 409 "Content-type mismatch")
      else post_bytes producer
          (elim seq [ none ↦ none | some bytes ↦ some (env.platform.url_encode bytes) ])
          close_stream now (post_payload meta body)

  unfoldable pub post_visible :
      Bytes
      → Option ProducerHeaders
      → Text
      → Option Bytes
      → Bool
      → ℤ
      → Option Meta
      → Exec env.Rest Response
  unfolding post_live
  post_visible body producer content_type seq close_stream now none =
      pure (reply 404 "Stream not found")
  post_visible body producer content_type seq close_stream now (some meta) =
      post_live body producer content_type seq close_stream now meta

  unfoldable pub post_typed :
      Request → Option ProducerHeaders → Bool → ℤ → Option Text → Exec env.Rest Response
  unfolding public_header_bytes visible_meta post_visible
  post_typed request producer close_stream now none =
      pure (reply 400 "Content-Type header is required")
  post_typed request producer close_stream now (some content_type) = do
    seq ← lift (public_header_bytes env.platform request "stream-seq")
    meta ← visible_meta env now
    post_visible request.body producer content_type seq close_stream now meta

  unfoldable pub post_parsed :
      Request → Bool → ℤ → Result (Option ProducerHeaders) → Exec env.Rest Response
  unfolding handle_close_only public_header_text post_typed
  post_parsed request close_stream now (err message) = pure (reply 400 message)
  post_parsed request close_stream now (ok producer) =
      if is_empty request.body && close_stream
      then handle_close_only producer now
      else if is_empty request.body
      then pure (reply 400 "Empty body")
      else do
        content_type ← lift (public_header_text env.platform request "content-type")
        post_typed request producer close_stream now content_type

  unfoldable pub handle_post : Request → ℤ → Exec env.Rest Response
  unfolding header_is_true parse_producer post_parsed
  handle_post request now =
      if ltb max_body_bytes (length request.body) then pure (reply 413 "Payload too large") else do
        close_stream ← lift (header_is_true env.platform request "stream-closed")
        post_parsed request close_stream now (parse_producer env.platform request)
