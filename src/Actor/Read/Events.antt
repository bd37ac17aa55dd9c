-- ===== src/Actor/Read/Events.antt =====
-- src/actor/read.rs: how `start_sse` begins a stream of events.
use rivet_durable_streams.Prelude.{
  Bool, false, not, ◌&&◌, Text, [], ◌∷◌, Option, none, some, if◌then◌else◌, text_eq, codes,
}
use rivet_durable_streams.Protocol.Content.{normalize_content_type, starts_with}
use rivet_durable_streams.Protocol.Http.{Headers}
use rivet_durable_streams.Store.Tables.{Meta}
use rivet_durable_streams.Actor.Write.{is_json}
use rivet_durable_streams.Actor.Read.Reply.{insert_if}

-- `StreamingResponse`, and what its pump is started with.
pub record SseStart : Type 0 where
  pub headers : Headers
  pub generation : Text
  pub offset : Text
  pub cursor : Option Text
  pub use_base64 : Bool
  pub is_json : Bool

unfoldable pub is_text : Option Text → Bool
unfolding starts_with normalize_content_type
is_text none = false
is_text (some value) = starts_with (codes "text/") (normalize_content_type (some value))

unfoldable pub start_pump : Text → Option Text → Meta → SseStart
unfolding is_text is_json insert_if
start_pump offset cursor meta =
    let use_base64 = not (is_text meta.content_type) && not (is_json meta.content_type) in
    record {
      headers = insert_if use_base64 "stream-sse-data-encoding" (codes "base64") (
          ("content-type", codes "text/event-stream")
          ∷ ("cache-control", codes "no-cache, no-store")
          ∷ ("connection", codes "keep-alive")
          ∷ ("content-encoding", codes "identity")
          ∷ []);
      generation = meta.generation;
      offset = if text_eq offset (codes "now") then meta.current_offset else offset;
      cursor = cursor;
      use_base64 = use_base64;
      is_json = is_json meta.content_type;
    }
