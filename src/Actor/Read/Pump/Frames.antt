-- ===== src/Actor/Read/Pump/Frames.antt =====
-- `pump_sse` of src/actor/read.rs: the order of its chunks, and the data of an event.
use rivet_durable_streams.Prelude.{
  ℕ, Bool, true, false, Text, Bytes, List, [], ◌∷◌, Option, none, some, leb, Result, ok, err,
  Bool-cases, inl, inr,
}
use rivet_durable_streams.Actor.Types.{Env, World, ReadSnapshot}
use rivet_durable_streams.Actor.Read.Events.{SseStart}
use rivet_durable_streams.Actor.Read.Get.{Wake, changed, timed_out, stopping}
use rivet_durable_streams.Actor.Read.Pump.{
  Chunk, data_chunk, error_chunk, Turn, is_over, send, send_finish, after_pause, after_send,
  deliver, send_frame, after_read, pump_sse, max_sse_lifetime_ms, Pumping,
}

-- Only the last chunk may end the response, as its last data or as an error.
pub data IsResponse : List Chunk → Type 0 where
  open_still : IsResponse []
  last : (chunk : Chunk) → IsResponse (chunk ∷ [])
  more :
      (bytes : Bytes) (chunks : List Chunk)
      → IsResponse chunks
      → IsResponse (data_chunk bytes false ∷ chunks)

send-IsResponse : (connected : Bool) (chunk : Chunk) → IsResponse (send connected chunk)
unfolding send
send-IsResponse true chunk = last chunk
send-IsResponse false chunk = open_still

module _ (env : Env) (start : SseStart) (turn : Turn) (again : Text → Pumping env)
    (h : (offset : Text) (w : World env.Rest) → IsResponse (again offset w).0) where
  after_pause-IsResponse :
      (wake : Wake) (offset : Text) (w : World env.Rest)
      → IsResponse (after_pause env wake again offset w).0
  unfolding after_pause
  after_pause-IsResponse stopping offset w = open_still
  after_pause-IsResponse changed offset w = h offset _
  after_pause-IsResponse timed_out offset w = h offset _

  after_send-IsResponse :
      (snapshot : ReadSnapshot) (w : World env.Rest)
      → IsResponse (after_send env turn again snapshot w).0
  unfolding after_send send_finish
  after_send-IsResponse snapshot w = elim (Bool-cases snapshot.batch.capped) [
    | inl e ↦ rw e (h _ _)
    | inr e ↦ rw e (elim (Bool-cases (leb max_sse_lifetime_ms turn.elapsed_ms)) [
      | inl old ↦ rw old (send-IsResponse turn.connected _)
      | inr young ↦ rw young (after_pause-IsResponse turn.wake _ _)
    ])
  ]

  deliver-IsResponse :
      (connected : Bool) (bytes : Bytes) (snapshot : ReadSnapshot) (w : World env.Rest)
      → IsResponse (deliver env connected bytes (after_send env turn again snapshot) w).0
  unfolding deliver
  deliver-IsResponse true bytes snapshot w = more bytes _ (after_send-IsResponse snapshot w)
  deliver-IsResponse false bytes snapshot w = open_still

  send_frame-IsResponse :
      (snapshot : ReadSnapshot) (w : World env.Rest)
      → IsResponse (send_frame env start turn again snapshot w).0
  unfolding send_frame send_finish
  send_frame-IsResponse snapshot w = elim (Bool-cases (is_over snapshot)) [
    | inl e ↦ rw e (send-IsResponse turn.connected _)
    | inr e ↦ rw e (deliver-IsResponse turn.connected _ snapshot w)
  ]

  after_read-IsResponse :
      (result : Result (Option ReadSnapshot)) (w : World env.Rest)
      → IsResponse (after_read env start turn again result w).0
  unfolding after_read send_finish
  after_read-IsResponse (err e) w = send-IsResponse turn.connected (error_chunk e)
  after_read-IsResponse (ok none) w = send-IsResponse turn.connected (data_chunk [] true)
  after_read-IsResponse (ok (some snapshot)) w = send_frame-IsResponse snapshot w

module _ (env : Env) (fuel : ℕ) (start : SseStart) where
  -- Whatever happens during the turns of a stream of events (errors, appends, deletion, a client
  -- that leaves, the end of its lifetime), every chunk that is sent but the last is unfinished data:
  -- nothing follows a chunk that finishes the response or an error.
  pub pump_sse-IsResponse :
      (turns : List Turn) (offset : Text) (w : World env.Rest)
      → IsResponse (pump_sse env fuel start turns offset w).0
  unfolding pump_sse
  pump_sse-IsResponse [] offset w = open_still
  pump_sse-IsResponse (turn ∷ turns) offset w =
      after_read-IsResponse env start turn (pump_sse env fuel start turns)
        (pump_sse-IsResponse turns) _ _
