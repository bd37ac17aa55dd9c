-- ===== src/Actor/Read/Get.antt =====
-- src/actor/read.rs: `handle_get`.
use rivet_durable_streams.Prelude.{
  ℕ, Bool, not, ◌&&◌, ◌⊎◌, inl, inr, ℤ, Text, [], ◌∷◌, Option, none, some, if◌then◌else◌, is_empty,
  is_some_and, unwrap_or, opt_eq, codes,
}
use rivet_durable_streams.Protocol.Http.{Request, Response, response, text_response, insert_header}
use rivet_durable_streams.Store.Tables.{Meta}
use rivet_durable_streams.Actor.Types.{Env, ReadSnapshot}
use rivet_durable_streams.Actor.Exec.{Exec, pure, raise, lift, ◌>>=◌, ◌>>◌, get_db, pause}
use rivet_durable_streams.Actor.Tags.{metadata_headers}
use rivet_durable_streams.Actor.Lifecycle.{visible_meta, touch_access}
use rivet_durable_streams.Actor.Write.{reply, is_json}
use rivet_durable_streams.Actor.Read.{read_snapshot}
use rivet_durable_streams.Actor.Read.Reply.{
  response_cursor, insert_if, is_long_poll, build_read_response,
}
use rivet_durable_streams.Actor.Read.Events.{SseStart, start_pump}
use rivet_durable_streams.Actor.Read.Query.{GetArguments, get_arguments}

-- How a wait for a change ends.
pub data Wake : Type 0 where
  changed timed_out stopping : Wake

pub data GetReply : Type 0 where
  plain : Response → GetReply
  streaming : SseStart → GetReply

-- What a GET meets from outside: the clock's values in their order, the random bytes of the cursor,
-- whether the semaphores have permits, and how the long poll's wait ends.
pub record Surroundings : Type 0 where
  pub clock : ℕ → ℤ
  pub b0 : ℕ
  pub b1 : ℕ
  pub free : Bool
  pub free_again : Bool
  pub live_free : Bool
  pub wake : Wake

module _ (env : Env) (actor_id : Text) (around : Surroundings) where
  unfoldable pub sse_visible : GetArguments → Option Meta → GetReply
  unfolding text_response start_pump
  sse_visible arguments none = plain (reply 404 "Stream not found")
  sse_visible arguments (some meta) =
      if meta.soft_deleted
      then plain (reply 410 "Stream is gone")
      else if not around.live_free
      then plain
          (text_response 429 (codes "Too many live readers") (("retry-after", codes "1") ∷ []))
      else streaming (start_pump (unwrap_or arguments.offset (codes "-1")) arguments.cursor meta)

  unfoldable pub start_sse : GetArguments → Exec env.Rest GetReply
  unfolding visible_meta sse_visible
  start_sse arguments = do
    meta ← visible_meta env (around.clock 0)
    pure (sse_visible arguments meta)

  unfoldable pub cursor_text : GetArguments → Text
  unfolding response_cursor
  cursor_text arguments = response_cursor (around.clock 5) around.b0 around.b1 arguments.cursor

  unfoldable pub finish_read : Request → GetArguments → ReadSnapshot → Exec env.Rest GetReply
  unfolding build_read_response cursor_text
  finish_read request arguments snapshot = do
    answer ← lift (
        build_read_response env actor_id request arguments.offset arguments.live
          (cursor_text arguments) snapshot)
    pure (plain answer)

  -- A long poll at the end of the stream that nothing happened to.
  unfoldable pub still_waiting : GetArguments → Meta → Option Meta → GetReply
  unfolding response insert_if cursor_text
  still_waiting arguments initial meta = plain (
      response 204
        (insert_if (is_some_and meta (λ m. m.closed)) "stream-closed" (codes "true") (
          ("stream-next-offset", initial.current_offset)
          ∷ ("stream-up-to-date", codes "true")
          ∷ ("stream-cursor", cursor_text arguments)
          ∷ []))
        [])

  unfoldable pub read_changed :
      Request → GetArguments → Option ReadSnapshot → Exec env.Rest GetReply
  unfolding text_response finish_read
  read_changed request arguments none = pure (plain (reply 404 "Stream not found"))
  read_changed request arguments (some snapshot) = finish_read request arguments snapshot

  unfoldable pub after_wait : ℕ → Request → GetArguments → Meta → Wake → Exec env.Rest GetReply
  unfolding read_snapshot read_changed still_waiting
  after_wait fuel request arguments initial changed = do
    snapshot ←
        read_snapshot env fuel around.free_again (some initial.current_offset)
          (some initial.generation) (around.clock 3) (around.clock 4)
    read_changed request arguments snapshot
  after_wait fuel request arguments initial timed_out = do
    db ← get_db
    pure (still_waiting arguments initial db.meta)
  after_wait fuel request arguments initial stopping = raise "actor stopping"

  -- A long poll waits for a change where the first read ended at the end of an open stream.
  unfoldable pub first_read :
      ℕ → Request → GetArguments → Meta → Option Text → Option ReadSnapshot → Exec env.Rest GetReply
  unfolding is_long_poll pause after_wait finish_read
  first_read fuel request arguments initial effective none =
      raise "stream generation changed during read"
  first_read fuel request arguments initial effective (some snapshot) =
      if is_long_poll arguments.live
        && opt_eq effective (some initial.current_offset)
        && is_empty snapshot.batch.messages
        && not snapshot.meta.closed
      then pause env.during >> after_wait fuel request arguments initial around.wake
      else finish_read request arguments snapshot

  unfoldable pub now_response : Meta → Response
  unfolding response insert_header metadata_headers is_json
  now_response initial =
      response 200
        (insert_header "cache-control" (codes "no-store")
          (insert_header "stream-up-to-date" (codes "true") (metadata_headers initial)))
        (if is_json initial.content_type then codes "[]" else [])

  unfoldable pub is_now : GetArguments → Bool
  is_now arguments = opt_eq arguments.offset (some (codes "now"))

  unfoldable pub get_visible : ℕ → Request → GetArguments → Option Meta → Exec env.Rest GetReply
  unfolding text_response is_now is_long_poll now_response touch_access read_snapshot first_read
  get_visible fuel request arguments none = pure (plain (reply 404 "Stream not found"))
  get_visible fuel request arguments (some initial) =
      if initial.soft_deleted
      then pure (plain (reply 410 "Stream is gone"))
      else if is_now arguments && not (is_long_poll arguments.live)
      then touch_access env (around.clock 1) >> pure (plain (now_response initial))
      else let effective =
          if is_now arguments then some initial.current_offset else arguments.offset in
        read_snapshot env fuel around.free effective (some initial.generation) (around.clock 1)
          (around.clock 2)
        >>= first_read fuel request arguments initial effective

  unfoldable pub answer_get : ℕ → Request → Response ⊎ GetArguments → Exec env.Rest GetReply
  unfolding start_sse visible_meta get_visible
  answer_get fuel request (inl refusal) = pure (plain refusal)
  answer_get fuel request (inr arguments) =
      if opt_eq arguments.live (some (codes "sse"))
      then start_sse arguments
      else visible_meta env (around.clock 0) >>= get_visible fuel request arguments

  unfoldable pub handle_get : ℕ → Request → Exec env.Rest GetReply
  unfolding get_arguments answer_get
  handle_get fuel request = answer_get fuel request (get_arguments request)
