-- ===== src/Store/Platform.antt =====
-- What the program takes from other crates, as one parameter: base64, RFC 3339 times, serde_json
-- and random identifiers.
use rivet_durable_streams.Prelude.{ℕ, Bool, ℤ, Text, Bytes, List, Option}

-- `ClosedBy` of actor.rs, which is stored as JSON text.
pub record ClosedBy : Type 0 where
  pub producer_id : Text
  pub epoch : ℕ
  pub seq : ℕ

-- The `control` event of a stream of events: at the end of a closed stream, or with a cursor and
-- whether the client is up to date.
pub data Control : Type 0 where
  ended : Text → Control
  going_on : Text → Text → Bool → Control

pub record Platform : Type 1 where
  -- base64: URL_SAFE_NO_PAD, and STANDARD for tags and SSE.
  pub url_encode : Bytes → Text
  pub url_decode : Text → Option Bytes
  pub standard_encode : Bytes → Text
  -- chrono: the milliseconds of an RFC 3339 time.
  pub parse_rfc3339 : Text → Option ℤ
  -- serde_json: `from_slice::<Value>`, `Value::Array`, `to_writer`.
  pub Value : Type 0
  pub from_slice : Bytes → Option Value
  pub as_array : Value → Option (List Value)
  pub to_writer : Value → Bytes
  -- serde_json on the program's own types.
  pub closed_by_to_text : ClosedBy → Text
  pub closed_by_from_text : Text → Option ClosedBy
  pub params_to_text : Text × Option Text → Text
  pub params_from_text : Text → Option (Text × Option Text)
  pub control_to_text : Control → Text
  -- uuid: the n-th `Uuid::new_v4().to_string()` of the process.
  pub uuid : ℕ → Text
