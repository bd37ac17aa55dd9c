-- ===== src/Facade/Handle.antt =====
-- src/facade.rs: `handle_root` and `handle`.
pub mod Cors
pub mod Answers
use Prim.Native.String.{◌++◌ as str_append}
use rivet_durable_streams.Prelude.{
  ℕ, Bool, true, false, not, ◌&&◌, String, Text, Bytes, List, [], ◌∷◌, ◌++◌, Option, none, some,
  ltb, leb, is_empty, if◌then◌else◌, codes, Result, ok, err,
}
use rivet_durable_streams.Protocol.Content.{starts_with}
use rivet_durable_streams.Protocol.Http.{Headers}
use rivet_durable_streams.Actor.Types.{actor_name, max_body_bytes, DurableStreamInput}
use rivet_durable_streams.Facade.HeaderMap.{set_header, append_header}
use rivet_durable_streams.Facade.Upstream.{
  PublicMethod, Config, Later, timeout, PublicRequest, PublicResponse, Fetch, Upstream,
}
use rivet_durable_streams.Facade.Upstream.PublicMethod.{
  get, head, put, post, delete, options, other,
}
use rivet_durable_streams.Facade.Reply.{apply_cors, cors_response, cors_text}
use rivet_durable_streams.Facade.Body.{collect_bounded_body}
use rivet_durable_streams.Facade.Bridge.{bridge_request_headers}
use rivet_durable_streams.Facade.Routing.{
  canonical_stream_path, stream_actor_key, is_reserved, set_location,
}

-- A step ends the request with an answer, or gives the next step its value.
pub data Flow (A : Type 0) : Type 0 where
  answer : PublicResponse → Flow A
  next : A → Flow A

abbrev pub Facing : Type 0 → Type 0 → Type 0
Facing R A = R → Flow A × R

abbrev pub continue : {R A B : Type 0} → Flow A → R → (A → Facing R B) → Flow B × R
continue (answer a) rest f = (answer a, rest)
continue (next a) rest f = f a rest

infixl 5 ◌>>=◌
abbrev pub ◌>>=◌ : {R A B : Type 0} → Facing R A → (A → Facing R B) → Facing R B
◌>>=◌ m f rest = continue (m rest).0 (m rest).1 f

-- A step that the actors do not see.
abbrev pub locally : {R A : Type 0} → Flow A → Facing R A
locally flow rest = (flow, rest)

unfoldable pub handle_root : PublicMethod → PublicResponse
unfolding cors_response cors_text
handle_root options = cors_response 204 []
handle_root _ = cors_text 404 (codes "Stream not found")

unfoldable pub check_method : PublicMethod → Flow (Unit {0})
unfolding cors_response set_header
check_method options = answer (cors_response 204 [])
check_method other =
    let refusal = cors_response 405 [] in
    answer (record refusal {
      headers = set_header "allow" (codes "GET, POST, PUT, DELETE, HEAD, OPTIONS") refusal.headers;
    })
check_method _ = next tt

unfoldable pub is_put : PublicMethod → Bool
is_put put = true
is_put _ = false

-- `{error}` in a message is the error's text.
unfoldable pub failed : String → String → PublicResponse
unfolding cors_text
failed message error = cors_text 502 (codes (str_append message error))

-- What a deadline and a failure make of an answer from outside.
unfoldable pub settled : {A : Type 0} → String → String → Option (Result A) → Flow A
unfolding failed cors_text
settled late message none = answer (cors_text 504 (codes late))
settled late message (some (err error)) = answer (failed message error)
settled late message (some (ok a)) = next a

-- An actor that is not there.
unfoldable pub present : {A : Type 0} → Flow (Option A) → Flow A
unfolding cors_text
present (answer a) = answer a
present (next none) = answer (cors_text 404 (codes "Stream not found"))
present (next (some actor)) = next actor

unfoldable pub received : Option (Result (Option Bytes)) → Flow Bytes
unfolding cors_text
received none = answer (cors_text 408 (codes "Request body timed out"))
received (some (err error)) = answer (cors_text 400 (codes "Invalid request body"))
received (some (ok none)) = answer (cors_text 413 (codes "Payload too large"))
received (some (ok (some body))) = next body

-- A refusal with the error's text, or the value.
unfoldable pub or_bad_request : {A : Type 0} → Result A → Flow A
unfolding cors_text
or_bad_request (ok a) = next a
or_bad_request (err message) = answer (cors_text 400 (codes message))

unfoldable pub actor_path : Option Text → Text
actor_path none = codes "protocol"
actor_path (some query) = codes "protocol?" ++ query

-- The loop over the headers of the actor's answer.
unfoldable pub append_public : Headers → Headers → Headers
unfolding starts_with append_header
append_public headers [] = headers
append_public headers ((name, value) ∷ rest) =
    append_public
      (if starts_with (codes "x-rivet-") (codes name)
        then headers
        else append_header name value headers)
      rest

-- `StatusCode::is_success`
unfoldable pub is_success : ℕ → Bool
is_success status = leb 200 status && ltb status 300

unfoldable pub publish : Config → PublicRequest → PublicResponse → PublicResponse
unfolding apply_cors append_public is_put is_success set_location
publish config request actor_response =
    let headers = apply_cors (append_public [] actor_response.headers) in
    record actor_response {
      headers =
          if is_put request.method && is_success actor_response.status
          then set_location config request.headers request.original_path headers
          else headers;
    }

unfoldable pub unless_reserved : Text → Flow Text → Flow Text
unfolding is_reserved cors_text
unless_reserved routed (answer a) = answer a
unless_reserved routed (next path) =
    if is_reserved routed then answer (cors_text 404 (codes "Stream not found")) else next path

module _ (u : Upstream) (config : Config) where
  -- The path of the stream, or the refusal.
  unfoldable pub check_path : PublicRequest → Flow Text
  unfolding canonical_stream_path or_bad_request unless_reserved
  check_path request =
      unless_reserved request.path (or_bad_request (canonical_stream_path u request.original_path))

  unfoldable pub receive_body : PublicRequest → Flow Bytes
  unfolding received timeout collect_bounded_body
  receive_body request = received (
      timeout config.body_timeout (record {
        ready_ms = request.body_ms;
        outcome = collect_bounded_body request.body max_body_bytes;
      }))

  unfoldable pub actor_handle : PublicMethod → Text → Result u.Handle
  unfolding is_put stream_actor_key
  actor_handle method path =
      let key = stream_actor_key u config.tenant_scope path in
      if is_put method
      then u.get_or_create actor_name key
          (record { path = path; tenant_scope = config.tenant_scope })
      else u.get actor_name key

  unfoldable pub resolve : PublicMethod → u.Handle → Facing u.Rest u.Handle
  unfolding is_put settled present timeout
  resolve method actor rest =
      if is_put method
      then (
        settled "Actor resolution timed out" "Actor resolution failed: "
            (timeout config.actor_timeout (u.resolve_handle actor rest).0),
        (u.resolve_handle actor rest).1,
      )
      else (
        present (
            settled "Actor resolution timed out" "Actor resolution failed: "
              (timeout config.actor_timeout (u.resolve_optional actor rest).0)),
        (u.resolve_optional actor rest).1,
      )

  -- The arguments of `fetch`.
  unfoldable pub fetch_of : PublicRequest → Bytes → Headers → Fetch
  unfolding actor_path
  fetch_of request body headers = record {
    path = actor_path request.query;
    method = request.method;
    headers = headers;
    body = if not (is_empty body) then some body else none;
  }

  unfoldable pub fetch : u.Handle → Fetch → Facing u.Rest PublicResponse
  unfolding settled timeout
  fetch actor arguments rest = (
    settled "Actor request timed out" "Actor request failed: "
        (timeout config.actor_timeout (u.fetch actor arguments rest).0),
    (u.fetch actor arguments rest).1,
  )

  unfoldable pub forward : PublicRequest → Facing u.Rest PublicResponse
  unfolding check_method check_path receive_body actor_handle settled resolve or_bad_request
      bridge_request_headers fetch_of fetch
  forward request = do
    allowed ← locally (check_method request.method)
    path ← locally (check_path request)
    body ← locally (receive_body request)
    handle ← locally (settled "" "Actor request failed: " (some (actor_handle request.method path)))
    actor ← resolve request.method handle
    headers ← locally (or_bad_request (bridge_request_headers u.platform request.headers))
    fetch actor (fetch_of request body headers)

  unfoldable pub finish : PublicRequest → Flow PublicResponse → PublicResponse
  unfolding publish
  finish request (answer a) = a
  finish request (next actor_response) = publish config request actor_response

  -- The answer, and the actors afterwards.
  unfoldable pub handle : PublicRequest → u.Rest → PublicResponse × u.Rest
  unfolding forward finish
  handle request rest = (finish request (forward request rest).0, (forward request rest).1)
