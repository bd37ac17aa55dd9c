-- ===== src/Actor/Producer.antt =====
-- src/actor/producer.rs
pub mod Fencing
use rivet_durable_streams.Prelude.{
  ℕ, ◌+◌, Bool, true, false, not, ◌&&◌, ◌||◌, ℤ, String, Text, Bytes, List, [], ◌∷◌, ◌++◌, Option,
  none, some, ltb, leb, ◌==◌, if◌then◌else◌, is_some, is_empty, codes, text_eq, Result, ok, err,
  ◌>>=◌, ok_or,
}
use rivet_durable_streams.Protocol.Decimal.{to_text}
use rivet_durable_streams.Protocol.Integer.{parse_non_negative_safe_integer}
use rivet_durable_streams.Protocol.Http.{
  Request, Response, Headers, response, text_response, public_header_bytes, public_header_text,
}
use rivet_durable_streams.Store.Tables.{Meta, ProducerState}
use rivet_durable_streams.Store.Platform.{Platform, ClosedBy}
use rivet_durable_streams.Actor.Types.{
  ProducerHeaders, ProducerValidation, accepted, duplicate, stale_epoch, invalid_epoch_seq,
  sequence_gap,
}

abbrev partial_message : String
partial_message =
    "All producer headers (Producer-Id, Producer-Epoch, Producer-Seq) must be provided together"

module _ (p : Platform) where
  unfoldable pub complete_producer : Bytes → Text → Text → Result (Option ProducerHeaders)
  complete_producer id epoch seq = do
    epoch ←
        ok_or (parse_non_negative_safe_integer epoch)
          "Invalid Producer-Epoch: must be a non-negative integer"
    seq ←
        ok_or (parse_non_negative_safe_integer seq)
          "Invalid Producer-Seq: must be a non-negative integer"
    ok (some (record { id = p.url_encode id; epoch = epoch; seq = seq }))

  unfoldable pub check_producer :
      Option Bytes → Option Text → Option Text → Result (Option ProducerHeaders)
  unfolding complete_producer
  check_producer none none none = ok none
  check_producer (some id) (some epoch) (some seq) =
      if is_empty id
      then err "Invalid Producer-Id: must not be empty"
      else complete_producer id epoch seq
  check_producer _ _ _ = err partial_message

  unfoldable pub parse_producer : Request → Result (Option ProducerHeaders)
  unfolding check_producer
  parse_producer request = do
    id ← public_header_bytes p request "producer-id"
    epoch ← public_header_text p request "producer-epoch"
    seq ← public_header_text p request "producer-seq"
    check_producer id epoch seq

  unfoldable pub closed_by_matches : Meta → ProducerHeaders → Bool
  closed_by_matches meta producer = elim meta.closed_by [
    | none ↦ false
    | some value ↦ elim (p.closed_by_from_text value) [
      | none ↦ false
      | some closed_by ↦
          text_eq closed_by.producer_id producer.id
          && closed_by.epoch == producer.epoch
          && closed_by.seq == producer.seq
    ]
  ]

unfoldable pub accept : ProducerHeaders → ℕ → ℤ → ProducerValidation
accept producer last_seq now =
    accepted (record { epoch = producer.epoch; last_seq = last_seq; last_updated = now })

unfoldable pub validate_producer : Option ProducerState → ProducerHeaders → ℤ → ProducerValidation
unfolding accept
validate_producer none producer now =
    if producer.seq == 0 then accept producer 0 now else sequence_gap 0 producer.seq
validate_producer (some state) producer now =
    if ltb producer.epoch state.epoch
    then stale_epoch state.epoch
    else if ltb state.epoch producer.epoch
    then (if producer.seq == 0 then accept producer 0 now else invalid_epoch_seq)
    else if leb producer.seq state.last_seq
    then duplicate state.last_seq
    else if producer.seq == state.last_seq + 1
    then accept producer producer.seq now
    else sequence_gap (state.last_seq + 1) producer.seq

unfoldable pub closed_header : Bool → Headers
closed_header closed = if closed then ("stream-closed", codes "true") ∷ [] else []

unfoldable pub producer_failure :
    ProducerValidation → ProducerHeaders → Meta → Bool → Result Response
unfolding closed_header
producer_failure (duplicate last_seq) producer meta close_only = ok (
    response 204
      (("producer-epoch", to_text producer.epoch)
        ∷ ("producer-seq", to_text last_seq)
        ∷ (if close_only
            then ("stream-next-offset", meta.current_offset) ∷ closed_header meta.closed
            else []))
      [])
producer_failure (stale_epoch current_epoch) producer meta close_only = ok (
    text_response 403 (codes "Stale producer epoch")
      (("producer-epoch", to_text current_epoch) ∷ []))
producer_failure invalid_epoch_seq producer meta close_only =
    ok (text_response 400 (codes "New epoch must start with sequence 0") [])
producer_failure (sequence_gap expected received) producer meta close_only = ok (
    text_response 409 (codes "Producer sequence gap") (
      ("producer-expected-seq", to_text expected)
      ∷ ("producer-received-seq", to_text received)
      ∷ []))
producer_failure (accepted state) producer meta close_only = err "accepted producer used as failure"

unfoldable pub producer_headers : Option ProducerHeaders → Headers
producer_headers none = []
producer_headers (some producer) =
    ("producer-epoch", to_text producer.epoch) ∷ ("producer-seq", to_text producer.seq) ∷ []

unfoldable pub producer_success : Text → Option ProducerHeaders → Bool → Response
unfolding producer_headers closed_header
producer_success offset producer closed =
    response (if is_some producer then 200 else 204)
      (("stream-next-offset", offset) ∷ producer_headers producer ++ closed_header closed) []

unfoldable pub close_success : Text → Option ProducerHeaders → Response
unfolding producer_headers
close_success offset producer =
    response 204
      (("stream-next-offset", offset) ∷ ("stream-closed", codes "true") ∷ producer_headers producer)
      []
