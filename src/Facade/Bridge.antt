-- ===== src/Facade/Bridge.antt =====
-- src/facade.rs: `bridge_request_headers`, and the headers of src/protocol.rs that it passes on.
pub mod Restored
use Prim.Native.String.{◌++◌ as str_append}
use rivet_durable_streams.Prelude.{
  String, Text, List, [], ◌∷◌, Option, none, some, if◌then◌else◌, Result, ok, err, ◌>>=◌,
}
use rivet_durable_streams.Protocol.Http.{Headers, get_header, internal_header_prefix}
use rivet_durable_streams.Store.Platform.{Platform}
use rivet_durable_streams.Facade.HeaderMap.{set_header, is_header_value}

abbrev pub bridged_request_headers : List String
bridged_request_headers =
    "content-type" ∷ "if-none-match" ∷ "stream-closed" ∷ "stream-seq" ∷ "stream-ttl"
    ∷ "stream-expires-at" ∷ "stream-forked-from" ∷ "stream-fork-offset" ∷ "stream-fork-sub-offset"
    ∷ "producer-id" ∷ "producer-epoch" ∷ "producer-seq" ∷ []

module _ (p : Platform) where
  -- `HeaderValue::from_str` of the encoded value. The internal names are constants, and valid.
  unfoldable pub encode_header : Text → Result Text
  unfolding is_header_value
  encode_header value =
      if is_header_value (p.url_encode value)
      then ok (p.url_encode value)
      else err "failed to parse header value"

  -- The body of the loop, from the header's value.
  unfoldable pub bridge_header : String → Option Text → Headers → Result Headers
  unfolding encode_header set_header
  bridge_header name none bridged = ok bridged
  bridge_header name (some value) bridged = do
    encoded ← encode_header value
    ok (set_header (str_append internal_header_prefix name) encoded bridged)

  -- The loop over the names.
  unfoldable pub bridge_names : List String → Headers → Headers → Result Headers
  unfolding get_header bridge_header
  bridge_names [] headers bridged = ok bridged
  bridge_names (name ∷ names) headers bridged = do
    next ← bridge_header name (get_header name headers) bridged
    bridge_names names headers next

  unfoldable pub bridge_request_headers : Headers → Result Headers
  unfolding bridge_names
  bridge_request_headers headers = bridge_names bridged_request_headers headers []
