-- ===== src/Actor/Read/Reply.antt =====
-- src/actor/read.rs: `build_read_response`.
use rivet_durable_streams.Prelude.{
  ℕ, Bool, not, ◌&&◌, ℤ, String, Text, Bytes, [], ◌∷◌, map, Option, none, some, if◌then◌else◌,
  is_empty, unwrap_or, opt_eq, text_eq, codes, last, Result, ok, err,
}
use rivet_durable_streams.Protocol.Cursor.{next_cursor}
use rivet_durable_streams.Protocol.Json.{concatenate, format_json_messages}
use rivet_durable_streams.Protocol.Http.{
  Headers, Request, Response, response, insert_header, remove_header, public_header_text,
}
use rivet_durable_streams.Actor.Types.{Env, ReadSnapshot}
use rivet_durable_streams.Actor.Tags.{int_to_text, metadata_headers, make_etag}
use rivet_durable_streams.Actor.Write.{is_json}

-- `response_cursor`, at a time and with the first bytes of a random identifier.
unfoldable pub response_cursor : ℤ → ℕ → ℕ → Option Text → Text
unfolding int_to_text next_cursor
response_cursor now_ms b0 b1 request_cursor = int_to_text (next_cursor now_ms b0 b1 request_cursor)

-- Where the client reads on: behind the last message, or at the end.
unfoldable pub response_offset : ReadSnapshot → Text
response_offset snapshot = elim (last snapshot.batch.messages) [
  | none ↦ snapshot.meta.current_offset
  | some message ↦ message.offset
]

unfoldable pub is_closed_at : ReadSnapshot → Bool
unfolding response_offset
is_closed_at snapshot =
    snapshot.meta.closed
    && text_eq (response_offset snapshot) snapshot.meta.current_offset
    && not snapshot.batch.capped

unfoldable pub read_body : ReadSnapshot → Bytes
unfolding is_json format_json_messages concatenate
read_body snapshot =
    let fragments = map (λ m. m.content) snapshot.batch.messages in
    if is_json snapshot.meta.content_type
    then format_json_messages fragments
    else concatenate fragments

unfoldable pub insert_if : Bool → String → Text → Headers → Headers
unfolding insert_header
insert_if test name value headers = if test then insert_header name value headers else headers

-- The headers of a read, but for its tag and its caching.
unfoldable pub read_headers : Bool → Text → ReadSnapshot → Headers
unfolding insert_if insert_header remove_header metadata_headers response_offset is_closed_at
read_headers long_poll cursor snapshot =
    let headers = insert_if (not snapshot.batch.capped) "stream-up-to-date" (codes "true") (
      insert_if long_poll "stream-cursor" cursor (
        insert_header "stream-next-offset" (response_offset snapshot)
          (metadata_headers snapshot.meta))) in
    if is_closed_at snapshot then headers else remove_header "stream-closed" headers

unfoldable pub full_response : Bool → Text → Text → ReadSnapshot → Response
unfolding response read_headers insert_if insert_header read_body
full_response long_poll cursor etag snapshot =
    response 200
      (insert_if (not long_poll) "cache-control"
        (codes "public, max-age=60, stale-while-revalidate=300")
        (insert_header "etag" etag (read_headers long_poll cursor snapshot)))
      (read_body snapshot)

unfoldable pub is_long_poll : Option Text → Bool
is_long_poll live = opt_eq live (some (codes "long-poll"))

module _ (env : Env) (actor_id : Text) where
  unfoldable pub build_read_response :
      Request → Option Text → Option Text → Text → ReadSnapshot → Result Response
  unfolding response_offset is_closed_at is_long_poll response make_etag full_response
      public_header_text
  build_read_response request offset live cursor snapshot =
      if is_long_poll live && is_empty snapshot.batch.messages && is_closed_at snapshot
      then ok (
          response 204
            (("stream-next-offset", response_offset snapshot)
              ∷ ("stream-up-to-date", codes "true")
              ∷ ("stream-closed", codes "true")
              ∷ [])
            [])
      else let etag =
          make_etag env.platform actor_id (unwrap_or offset (codes "-1")) (response_offset snapshot)
            (is_closed_at snapshot) in
        elim (public_header_text env.platform request "if-none-match") [
          | err e ↦ err e
          | ok none_match ↦
              if opt_eq none_match (some etag)
              then ok (response 304 (("etag", etag) ∷ []) [])
              else ok (full_response (is_long_poll live) cursor etag snapshot)
        ]
