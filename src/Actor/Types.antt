-- ===== src/Actor/Types.antt =====
-- src/actor.rs: the actor's records, the actions between actors, and what an actor runs in.
use rivet_durable_streams.Prelude.{
  ℕ, Bool, true, false, ℤ, String, Text, List, Option, none, some, Result,
}
use rivet_durable_streams.Store.Tables.{Meta, ProducerState, Db}
use rivet_durable_streams.Store.Range.{ReadBatch}
use rivet_durable_streams.Store.Platform.{Platform}

abbrev pub max_body_bytes : ℕ
max_body_bytes = 1000000

abbrev pub producer_state_ttl_ms : ℕ
producer_state_ttl_ms = 604800000

abbrev pub maintenance_retry_ms : ℕ
maintenance_retry_ms = 5000

abbrev pub actor_name : String
actor_name = "durableStream"

pub record DurableStreamInput : Type 0 where
  pub path : Text
  pub tenant_scope : Text

pub record DurableStreamState : Type 0 where
  pub path : Text
  pub tenant_scope : Text

-- `create_state`
unfoldable pub create_state : DurableStreamInput → DurableStreamState
create_state input = record { path = input.path; tenant_scope = input.tenant_scope }

-- The epoch and the sequence number are what `parse_non_negative_safe_integer` returns.
pub record ProducerHeaders : Type 0 where
  pub id : Text
  pub epoch : ℕ
  pub seq : ℕ

pub data ProducerValidation : Type 0 where
  accepted : ProducerState → ProducerValidation
  duplicate : ℕ → ProducerValidation
  stale_epoch : ℕ → ProducerValidation
  invalid_epoch_seq : ProducerValidation
  sequence_gap : ℕ → ℕ → ProducerValidation

pub record ReadSnapshot : Type 0 where
  pub meta : Meta
  pub batch : ReadBatch

pub record ForkAcquire : Type 0 where
  pub edge_id : Text
  pub fork_offset : Option Text
  pub content_type_provided : Option Text

pub record ForkAcquireResult : Type 0 where
  pub is_ok : Bool
  pub error : Option Text
  pub fork_offset : Option Text
  pub content_type : Option Text
  pub ttl_seconds : Option ℤ
  pub expires_at : Option Text
  pub source_generation : Option Text

-- `ForkAcquireResult::success`
unfoldable pub acquired : Text → Meta → ForkAcquireResult
acquired fork_offset meta = record {
  is_ok = true;
  error = none;
  fork_offset = some fork_offset;
  content_type = meta.content_type;
  ttl_seconds = meta.ttl_seconds;
  expires_at = meta.expires_at;
  source_generation = some meta.generation;
}

-- `ForkAcquireResult::failure`
unfoldable pub not_acquired : Text → ForkAcquireResult
not_acquired error = record {
  is_ok = false;
  error = some error;
  fork_offset = none;
  content_type = none;
  ttl_seconds = none;
  expires_at = none;
  source_generation = none;
}

pub record ForkRelease : Type 0 where
  pub edge_id : Text
  pub source_generation : Option Text

pub record ReadRange : Type 0 where
  pub after_offset : Option Text
  pub cap_offset : Text
  pub limit : Option ℕ
  pub byte_budget : Option ℕ

-- What an actor meets: the libraries, and the other actors behind the client. `Rest` is their
-- state; an action on one of them may change it, fail, and is never about this actor itself.
pub record Env : Type 1 where
  pub platform : Platform
  pub Rest : Type 0
  pub Handle : Type 0
  pub source_handle : Text → Text → Result Handle
  pub fork_acquire : Handle → ForkAcquire → Rest → Result ForkAcquireResult × Rest
  pub fork_release : Handle → ForkRelease → Rest → Result (Unit {0}) × Rest
  pub read_range : Handle → ReadRange → Rest → Result ReadBatch × Rest
  -- What other callbacks of the actor do to its tables while a read waits for the n-th time.
  pub during : ℕ → Db → Db

-- A maintenance event that is scheduled: after a delay, or at a time, in milliseconds.
pub data Alarm : Type 0 where
  after : ℕ → Alarm
  at : ℤ → Alarm

-- One actor, and the rest of the world. `changes` is the version of the watch channel, `drawn` the
-- number of random identifiers drawn so far, `waits` how often a read has waited.
pub record World (Rest : Type 0) : Type 0 where
  pub path : Text
  pub tenant_scope : Text
  pub db : Db
  pub changes : ℕ
  pub alarms : List Alarm
  pub drawn : ℕ
  pub waits : ℕ
  pub rest : Rest
