-- ===== src/Tests/Log.antt =====
-- Concrete inputs for the theorems on sequences of callbacks, and on reads that go on.
use rivet_durable_streams.Prelude.{
  ℕ, ◌≡◌, ◌≢◌, refl, true, false, pos, List, [], ◌∷◌, Option, none, some, is_some, codes, cmp_text,
}
use rivet_durable_streams.Protocol.Http.{Request, Method}
use rivet_durable_streams.Protocol.Utf8.{is_utf8}
use rivet_durable_streams.Store.Range.{normalized}
use rivet_durable_streams.Actor.Types.{Env, ReadSnapshot}
use rivet_durable_streams.Actor.Read.{read_stitched, read_part, inherits}
use rivet_durable_streams.Actor.Read.Reply.{read_body}
use rivet_durable_streams.Actor.Read.Events.{SseStart, start_pump}
use rivet_durable_streams.Actor.Read.Ends.{AsksAgain, read_stitched_ends}
use rivet_durable_streams.Actor.Read.Get.{Surroundings, changed}
use rivet_durable_streams.Actor.Read.Pump.{Turn, event_data, pump_sse}
use rivet_durable_streams.Actor.Read.Pump.Frames.{IsResponse, pump_sse-IsResponse}
use rivet_durable_streams.Actor.Read.Pump.Data.{event_data-read_body}
use rivet_durable_streams.Actor.Dispatch.{maintenance}
use rivet_durable_streams.Store.Tables.{Db, insert_row, has_row}
use rivet_durable_streams.Protocol.Offset.{advance_offset}
use rivet_durable_streams.Actor.Log.{Stream, stream, Keeps}
use rivet_durable_streams.Store.Meta.{set_closed}
use rivet_durable_streams.Actor.Log.Tables.{set_closed-Evolves}
use rivet_durable_streams.Actor.Log.Callbacks.{
  Event, fetch, action, handle_events, handle_events-refines,
}
use rivet_durable_streams.Tests.Data.{
  env, env_during, platform, world, meta_at, new_db, one_db, first_offset, first_message,
}

abbrev around : Surroundings
around = record {
  clock = λ n. pos 5;
  b0 = 0;
  b1 = 1;
  free = true;
  free_again = true;
  live_free = true;
  wake = changed;
}

abbrev append_abc : Request
append_abc = record {
  method = Method.post;
  query = [];
  headers = ("content-type", codes "text/plain") ∷ [];
  body = codes "abc";
}

abbrev read_all : Request
read_all = record { method = Method.get; query = []; headers = []; body = [] }

-- Identifiers of two numbers, none of which is a generation of one letter; the stream is closed
-- while the maintenance waits.
abbrev pairs : Env
pairs = record (env_during (λ n db. set_closed none db)) {
  platform = record platform { uuid = λ n. n ∷ n ∷ [] };
}

abbrev events : List Event
events =
    fetch (pos 2) (codes "a") around append_abc
    ∷ fetch (pos 3) (codes "a") around read_all
    ∷ action (pos 4) maintenance
    ∷ []

abbrev later_db : Db
later_db = (handle_events pairs 2 events (world new_db)).db

abbrev held : Option Stream → Stream
held none = record { generation = []; closed = false; content = λ offset. none }
held (some s) = s

held-some : (found : Option Stream) → is_some found ≡ true → found ≡ some (held found)
held-some none h = cc
held-some (some s) h = refl

pair_or_letter : (n : ℕ) → n ∷ n ∷ [] ≢ codes "g"
unfolding codes
pair_or_letter n e = cc

handle_events-refines_example : Keeps (held (stream new_db)) (held (stream later_db))
unfolding stream handle_events codes cmp_text is_utf8 advance_offset insert_row has_row
handle_events-refines_example =
    handle_events-refines pairs 2 (held (stream new_db)) (held (stream later_db)) events
      (world new_db) (λ n db. set_closed-Evolves none db) pair_or_letter refl
      (held-some (stream later_db) refl) refl

read_stitched_ends_example :
    (¬ AsksAgain env
      (codes "g")
      (λ n db held. held)
      (read_part env
        (meta_at first_offset)
        (normalized none)
        none
        10
        100
        (inherits (meta_at first_offset) (normalized none))
        (world one_db)).0)
    × (read_stitched env 3 (meta_at first_offset) none none 10 100 (world one_db)
        ≡ read_stitched env 1 (meta_at first_offset) none none 10 100 (world one_db))
read_stitched_ends_example =
    read_stitched_ends env (codes "g") (λ n db held. held) (meta_at first_offset) none none 10 100 2
      (world one_db) refl (meta_at first_offset, refl, refl)

abbrev turn : Turn
turn = record {
  free = true;
  visible_at = pos 5;
  touched_at = pos 6;
  cursor_at = pos 7;
  b0 = 0;
  b1 = 1;
  connected = true;
  elapsed_ms = 10;
  wake = changed;
}

abbrev started : SseStart
started = start_pump (codes "-1") none (meta_at first_offset)

pump_sse-IsResponse_example :
    IsResponse
      (pump_sse env 2 started
        (turn ∷ record turn { elapsed_ms = 60000 } ∷ [])
        (codes "-1")
        (world one_db)).0
pump_sse-IsResponse_example =
    pump_sse-IsResponse env 2 started (turn ∷ record turn { elapsed_ms = 60000 } ∷ []) (codes "-1")
      (world one_db)

abbrev snapshot : ReadSnapshot
snapshot = record {
  meta = meta_at first_offset;
  batch = record { messages = first_message ∷ []; capped = false };
}

event_data-read_body_example : event_data platform started (first_message ∷ []) ≡ 1 ∷ 2 ∷ 3 ∷ []
unfolding read_body is_utf8 start_pump codes cmp_text
event_data-read_body_example = event_data-read_body platform (codes "-1") none snapshot refl
