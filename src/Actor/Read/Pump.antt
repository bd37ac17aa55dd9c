-- ===== src/Actor/Read/Pump.antt =====
-- src/actor/read.rs: `pump_sse`, which writes a stream of events to an open connection.
pub mod Frames
pub mod Data
use rivet_durable_streams.Prelude.{
  ℕ, Bool, true, false, not, ◌&&◌, ℤ, String, Text, Bytes, List, [], ◌∷◌, ◌++◌, map, Option, none,
  some, leb, if◌then◌else◌, is_empty, text_eq, codes, Result, ok, err,
}
use rivet_durable_streams.Protocol.Utf8.{from_utf8_lossy}
use rivet_durable_streams.Protocol.Json.{concatenate, format_json_messages}
use rivet_durable_streams.Protocol.Sse.{encode_sse_data}
use rivet_durable_streams.Store.Tables.{Message}
use rivet_durable_streams.Store.Platform.{Platform, Control, ended, going_on}
use rivet_durable_streams.Actor.Types.{Env, World, ReadSnapshot}
use rivet_durable_streams.Actor.Exec.{pause}
use rivet_durable_streams.Actor.Read.{read_snapshot}
use rivet_durable_streams.Actor.Read.Reply.{response_cursor, response_offset}
use rivet_durable_streams.Actor.Read.Events.{SseStart}
use rivet_durable_streams.Actor.Read.Get.{Wake, changed, timed_out, stopping}

abbrev pub max_sse_lifetime_ms : ℕ
max_sse_lifetime_ms = 60000

-- `ResponseChunk`
pub data Chunk : Type 0 where
  data_chunk : Bytes → Bool → Chunk
  error_chunk : String → Chunk

-- What one turn of the loop meets: whether a read has a permit, the clock's values, the random bytes
-- of the cursor, whether the client still takes chunks, the age of the connection, and how the wait
-- ends.
pub record Turn : Type 0 where
  pub free : Bool
  pub visible_at : ℤ
  pub touched_at : ℤ
  pub cursor_at : ℤ
  pub b0 : ℕ
  pub b1 : ℕ
  pub connected : Bool
  pub elapsed_ms : ℕ
  pub wake : Wake

unfoldable pub event_data : Platform → SseStart → List Message → Text
unfolding format_json_messages concatenate from_utf8_lossy
event_data p start messages =
    let fragments = map (λ m. m.content) messages in
    let bytes = if start.is_json then format_json_messages fragments else concatenate fragments in
    if start.use_base64 then p.standard_encode bytes else from_utf8_lossy bytes

unfoldable pub data_frame : Platform → SseStart → List Message → Text
unfolding event_data encode_sse_data
data_frame p start messages =
    if is_empty messages
    then []
    else codes "event: data\n" ++ encode_sse_data (event_data p start messages)

-- `closed` of the loop: the stream is closed and this read reaches its end.
unfoldable pub is_over : ReadSnapshot → Bool
unfolding response_offset
is_over snapshot =
    snapshot.meta.closed
    && not snapshot.batch.capped
    && text_eq (response_offset snapshot) snapshot.meta.current_offset

unfoldable pub control : Text → ReadSnapshot → Control
unfolding response_offset is_over
control cursor snapshot =
    if is_over snapshot
    then ended (response_offset snapshot)
    else going_on (response_offset snapshot) cursor (not snapshot.batch.capped)

unfoldable pub frame : Platform → SseStart → Text → ReadSnapshot → Text
unfolding data_frame control encode_sse_data
frame p start cursor snapshot =
    data_frame p start snapshot.batch.messages
    ++ (codes "event: control\n" ++ encode_sse_data (p.control_to_text (control cursor snapshot)))

-- `send`: a client that has gone takes nothing.
unfoldable pub send : Bool → Chunk → List Chunk
send connected chunk = if connected then chunk ∷ [] else []

module _ (env : Env) where
  abbrev pub Pumping : Type 0
  Pumping = World env.Rest → List Chunk × World env.Rest

  -- `send_finish`, which ends the task.
  unfoldable pub send_finish : Turn → Bytes → Pumping
  unfolding send
  send_finish turn bytes w = (send turn.connected (data_chunk bytes true), w)

  -- After the wait for a change or the poll's time.
  unfoldable pub after_pause : Wake → (Text → Pumping) → Text → Pumping
  unfolding pause
  after_pause stopping again offset w = ([], w)
  after_pause changed again offset w = again offset (pause env.during w).1
  after_pause timed_out again offset w = again offset (pause env.during w).1

  -- The rest of a turn whose chunk was sent. While it was, other callbacks ran.
  unfoldable pub after_send : Turn → (Text → Pumping) → ReadSnapshot → Pumping
  unfolding response_offset send_finish after_pause pause
  after_send turn again snapshot w =
      let sent = (pause env.during w).1 in
      if snapshot.batch.capped
      then again (response_offset snapshot) sent
      else if leb max_sse_lifetime_ms turn.elapsed_ms
      then send_finish turn [] sent
      else after_pause turn.wake again (response_offset snapshot) sent

  -- A frame that does not finish the response, and what follows if the client takes it.
  unfoldable pub deliver : Bool → Bytes → Pumping → Pumping
  deliver false bytes go_on w = ([], w)
  deliver true bytes go_on w =
      let (chunks, after) = go_on w in (data_chunk bytes false ∷ chunks, after)

  unfoldable pub send_frame : SseStart → Turn → (Text → Pumping) → ReadSnapshot → Pumping
  unfolding frame response_cursor is_over send_finish deliver after_send
  send_frame start turn again snapshot w =
      let cursor = response_cursor turn.cursor_at turn.b0 turn.b1 start.cursor in
      let bytes = frame env.platform start cursor snapshot in
      if is_over snapshot
      then send_finish turn bytes w
      else deliver turn.connected bytes (after_send turn again snapshot) w

  -- What a turn makes of its read. `start_sse` sends the error that ends the task.
  unfoldable pub after_read :
      SseStart → Turn → (Text → Pumping) → Result (Option ReadSnapshot) → Pumping
  unfolding send send_finish send_frame
  after_read start turn again (err e) w = (send turn.connected (error_chunk e), w)
  after_read start turn again (ok none) w = send_finish turn [] w
  after_read start turn again (ok (some snapshot)) w = send_frame start turn again snapshot w

  -- The loop over the turns that there are, behind an offset; `fuel` is that of a read.
  unfoldable pub pump_sse : ℕ → SseStart → List Turn → Text → Pumping
  unfolding read_snapshot after_read
  pump_sse fuel start [] offset w = ([], w)
  pump_sse fuel start (turn ∷ turns) offset w =
      let (result, after) =
        read_snapshot env fuel turn.free (some offset) (some start.generation) turn.visible_at
          turn.touched_at w in
      after_read start turn (pump_sse fuel start turns) result after
