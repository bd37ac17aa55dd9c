-- ===== src/Facade/Reply.antt =====
-- src/facade.rs: `cors_response` and `apply_cors`.
use rivet_durable_streams.Prelude.{ℕ, Text, Bytes, List, [], ◌∷◌, Result, ok, codes}
use rivet_durable_streams.Protocol.Http.{Headers}
use rivet_durable_streams.Facade.HeaderMap.{set_header}
use rivet_durable_streams.Facade.Upstream.{PublicResponse}

abbrev pub allow_headers : Text
allow_headers =
    codes
      "content-type, authorization, If-None-Match, Stream-Seq, Stream-TTL, Stream-Expires-At, Stream-Closed, Producer-Id, Producer-Epoch, Producer-Seq, Stream-Forked-From, Stream-Fork-Offset, Stream-Fork-Sub-Offset"

abbrev pub expose_headers : Text
expose_headers =
    codes
      "Stream-Next-Offset, Stream-Cursor, Stream-Up-To-Date, Stream-Closed, Stream-TTL, Stream-Expires-At, Producer-Epoch, Producer-Seq, Producer-Expected-Seq, Producer-Received-Seq, stream-sse-data-encoding, etag, content-type, content-encoding, location, vary"

unfoldable pub apply_cors : Headers → Headers
unfolding set_header
apply_cors headers = set_header "cross-origin-resource-policy" (codes "cross-origin") (
    set_header "x-content-type-options" (codes "nosniff") (
      set_header "access-control-expose-headers" expose_headers (
        set_header "access-control-allow-headers" allow_headers (
          set_header "access-control-allow-methods" (codes "GET, POST, PUT, DELETE, HEAD, OPTIONS")
            (set_header "access-control-allow-origin" (codes "*") headers)))))

unfoldable pub cors_response : ℕ → List (Result Bytes) → PublicResponse
unfolding apply_cors
cors_response status body = record { status = status; headers = apply_cors []; body = body }

-- An answer with a message. `Body::from` of a text gives one chunk and no content type.
unfoldable pub cors_text : ℕ → Text → PublicResponse
unfolding cors_response
cors_text status message = cors_response status (ok message ∷ [])
