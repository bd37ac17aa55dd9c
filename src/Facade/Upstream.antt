-- ===== src/Facade/Upstream.antt =====
-- src/facade.rs: its configuration, its requests and answers, and what it meets outside: the client
-- of the actors, the url and sha2 crates, and time.
use rivet_durable_streams.Prelude.{
  ℕ, String, Bytes, Text, List, Option, none, some, Result, leb, if◌then◌else◌, codes,
}
use rivet_durable_streams.Protocol.Http.{Headers}
use rivet_durable_streams.Store.Platform.{Platform}
use rivet_durable_streams.Actor.Types.{DurableStreamInput}

-- `http::Method`
pub data PublicMethod : Type 0 where
  get head put post delete options other : PublicMethod

-- `DurableStreamsConfig`, with its deadlines in milliseconds.
pub record Config : Type 0 where
  pub tenant_scope : Text
  pub public_origin : Option Text
  pub body_timeout : ℕ
  pub actor_timeout : ℕ

-- `DurableStreamsConfig::default`
unfoldable pub default_config : Config
default_config = record {
  tenant_scope = codes "default";
  public_origin = none;
  body_timeout = 15000;
  actor_timeout = 15000;
}

-- A future: after how many milliseconds it is ready, and with what.
pub record Later (A : Type 0) : Type 0 where
  pub ready_ms : ℕ
  pub outcome : A

-- `tokio::time::timeout`: `none` when the deadline passes first.
unfoldable pub timeout : {A : Type 0} → ℕ → Later A → Option A
timeout limit future = if leb future.ready_ms limit then some future.outcome else none

-- `original_path` is the path before the router strips the prefix under which it is nested. The
-- body is a stream of chunks, any of which may fail, read to its end `body_ms` after the request.
pub record PublicRequest : Type 0 where
  pub method : PublicMethod
  pub original_path : Text
  pub path : Text
  pub query : Option Text
  pub headers : Headers
  pub body : List (Result Bytes)
  pub body_ms : ℕ

pub record PublicResponse : Type 0 where
  pub status : ℕ
  pub headers : Headers
  pub body : List (Result Bytes)

-- The arguments of `fetch` after the path.
pub record Fetch : Type 0 where
  pub path : Text
  pub method : PublicMethod
  pub headers : Headers
  pub body : Option Bytes

-- `Rest` is the state of the actors. `url_path` is the path that the url crate joins to an origin.
pub record Upstream : Type 1 where
  pub platform : Platform
  pub url_path : Text → Result Text
  pub sha256_hex : Bytes → Text
  pub Rest : Type 0
  pub Handle : Type 0
  pub get : String → Text → Result Handle
  pub get_or_create : String → Text → DurableStreamInput → Result Handle
  pub resolve_handle : Handle → Rest → Later (Result Handle) × Rest
  pub resolve_optional : Handle → Rest → Later (Result (Option Handle)) × Rest
  pub fetch : Handle → Fetch → Rest → Later (Result PublicResponse) × Rest
