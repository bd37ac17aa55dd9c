-- ===== src/Actor/Producer/Fencing.antt =====
-- `validate_producer` of src/actor/producer.rs: epochs and sequence numbers.
use rivet_durable_streams.Prelude.{◌+◌, ◌≤◌, ◌<◌, ◌≡◌, ◌⊎◌, ◌↔◌, ℤ, Option, none, some, arith}
use rivet_durable_streams.Store.Tables.{ProducerState}
use rivet_durable_streams.Actor.Types.{ProducerHeaders, accepted, duplicate, stale_epoch}
use rivet_durable_streams.Actor.Producer.{validate_producer}

-- The requests that a producer may make next.
abbrev pub IsNext : Option ProducerState → ProducerHeaders → Type 0
IsNext none producer = producer.seq ≡ 0
IsNext (some state) producer =
    ((state.epoch < producer.epoch) × (producer.seq ≡ 0))
    ⊎ ((state.epoch ≡ producer.epoch) × (producer.seq ≡ state.last_seq + 1))

abbrev pub accepted_state : ProducerHeaders → ℤ → ProducerState
accepted_state producer now = record {
  epoch = producer.epoch;
  last_seq = producer.seq;
  last_updated = now;
}

-- A request is accepted exactly where it is the next of its epoch, or begins a newer epoch at 0,
-- and it is then the state to be stored.
pub validate_producer_accepts :
    (state : Option ProducerState) (producer : ProducerHeaders) (now : ℤ) (next : ProducerState)
    → (validate_producer state producer now ≡ accepted next)
      ↔ (IsNext state producer × (next ≡ accepted_state producer now))
unfolding validate_producer
validate_producer_accepts none producer now next = ground arith
validate_producer_accepts (some state) producer now next = ground arith

-- Once a request is accepted, the same request is a duplicate, an older epoch is refused, and the
-- same epoch further back is a duplicate too.
pub validate_producer_retry :
    (state : Option ProducerState) (producer retry : ProducerHeaders) (now later : ℤ)
    (next : ProducerState)
    → validate_producer state producer now ≡ accepted next
    → (retry.epoch < producer.epoch
        → validate_producer (some next) retry later ≡ stale_epoch producer.epoch)
      × (retry.epoch ≡ producer.epoch
          → retry.seq ≤ producer.seq
          → validate_producer (some next) retry later ≡ duplicate producer.seq)
unfolding validate_producer
validate_producer_retry none producer retry now later next h = ground arith
validate_producer_retry (some state) producer retry now later next h = ground arith
