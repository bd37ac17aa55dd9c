-- ===== src/Server/Serverless.antt =====
-- src/serverless_http.rs: requests of an HTTP server are handed to the serverless runtime.
pub mod Copied
use text.Mathlib.Text.{◌==◌ as str_eq}
use rivet_durable_streams.Prelude.{
  ℕ, String, ◌&&◌, Text, Bytes, List, [], ◌∷◌, ◌++◌, Option, none, some, unwrap_or, leb,
  if◌then◌else◌, Result, ok, err, codes, all,
}
use rivet_durable_streams.Protocol.Http.{Headers}
use rivet_durable_streams.Facade.HeaderMap.{append_header, is_header_value, to_str}
use rivet_durable_streams.Facade.Upstream.{PublicResponse}

-- What axum gives of a request; the cancel token is that of the answer.
pub record ServerRequest : Type 0 where
  pub method : Text
  pub path_and_query : Option Text
  pub headers : Headers
  pub body : List (Result Bytes)

pub record ServerlessRequest : Type 0 where
  pub method : Text
  pub url : Text
  pub headers : Headers
  pub body : Bytes

-- `body` is what the channel delivers until it is closed.
pub record ServerlessResponse : Type 0 where
  pub status : ℕ
  pub headers : Headers
  pub body : List (Result Bytes)

-- The runtime with its state, `axum::body::to_bytes` and `HeaderName::try_from`.
pub record Runtime : Type 1 where
  pub State : Type 0
  pub max_request_body_bytes : ℕ
  pub incoming_too_long_response : ServerlessResponse
  pub handle_request : ServerlessRequest → State → ServerlessResponse × State
  pub to_bytes : List (Result Bytes) → ℕ → Result Bytes
  pub header_name : String → Option String

-- `entry(name).and_modify(…).or_insert_with(…)`
unfoldable pub push_value : String → Text → Headers → Headers
push_value name value [] = (name, value) ∷ []
push_value name value ((key, existing) ∷ rest) =
    let later = push_value name value rest in
    if str_eq key name
    then (key, existing ++ codes ", " ++ value) ∷ rest
    else (key, existing) ∷ later

unfoldable pub copy_into : Headers → Headers → Headers
unfolding push_value to_str
copy_into headers [] = headers
copy_into headers ((name, value) ∷ source) = elim (to_str value) [
  | none ↦ copy_into headers source
  | some readable ↦ copy_into (push_value name readable headers) source
]

unfoldable pub copy_headers : Headers → Headers
unfolding copy_into
copy_headers = copy_into []

-- `StatusCode::from_u16`
unfoldable pub from_u16 : ℕ → Option ℕ
from_u16 status = if leb 100 status && leb status 999 then some status else none

module _ (runtime : Runtime) where
  unfoldable pub append_valid : Headers → Headers → Headers
  unfolding append_header is_header_value
  append_valid headers [] = headers
  append_valid headers ((name, value) ∷ rest) = elim (runtime.header_name name) [
    | none ↦ append_valid headers rest
    | some header ↦
        append_valid (if is_header_value value then append_header header value headers else headers)
          rest
  ]

  unfoldable pub into_response : ServerlessResponse → PublicResponse
  unfolding from_u16 append_valid
  into_response response = record {
    status = unwrap_or (from_u16 response.status) 500;
    headers = append_valid [] response.headers;
    body = response.body;
  }

  unfoldable pub serverless_request : ServerRequest → Bytes → ServerlessRequest
  unfolding copy_headers
  serverless_request request body = record {
    method = request.method;
    url = codes "http://internal" ++ unwrap_or request.path_and_query (codes "/");
    headers = copy_headers request.headers;
    body = body;
  }

  unfoldable pub handle_serverless : ServerRequest → runtime.State → PublicResponse × runtime.State
  unfolding into_response serverless_request
  handle_serverless request state =
      elim (runtime.to_bytes request.body runtime.max_request_body_bytes) [
        | err _ ↦ (into_response runtime.incoming_too_long_response, state)
        | ok body ↦
            let answer = runtime.handle_request (serverless_request request body) state in
            (into_response answer.0, answer.1)
      ]
