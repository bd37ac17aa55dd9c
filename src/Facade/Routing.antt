-- ===== src/Facade/Routing.antt =====
-- src/facade.rs: the path and the key that name a stream's actor, and the `Location` of a new stream.
pub mod Keys
use rivet_durable_streams.Prelude.{
  Bool, ◌||◌, Text, List, [], ◌∷◌, ◌++◌, Option, none, some, if◌then◌else◌, text_eq, codes,
  unwrap_or, filter_option, Result, ok, err, with_prefix, ◌>>=◌,
}
use rivet_durable_streams.Protocol.Content.{before, trim, trim_end_matches, ends_with, contains}
use rivet_durable_streams.Protocol.Http.{Headers, get_header}
use rivet_durable_streams.Facade.HeaderMap.{to_str, is_header_value, set_header}
use rivet_durable_streams.Facade.Upstream.{Config, Upstream}

module _ (u : Upstream) where
  unfoldable pub canonical_stream_path : Text → Result Text
  canonical_stream_path path = do
    canonical ← with_prefix "Invalid stream path: " (u.url_path path)
    if text_eq canonical (codes "/") then err "Stream path must not be empty" else ok canonical

  -- The hash's `update` appends.
  unfoldable pub stream_actor_key : Text → Text → Text
  stream_actor_key tenant_scope path = u.sha256_hex (tenant_scope ++ (0 ∷ path))

-- The internal paths of a router.
unfoldable pub is_reserved : Text → Bool
unfolding ends_with contains
is_reserved path = ends_with (codes "/__ds") path || contains (codes "/__ds/") path

unfoldable pub scheme : Headers → Text
unfolding get_header to_str before trim
scheme headers = elim (get_header "x-forwarded-proto" headers) [
  | none ↦ codes "http"
  | some value ↦ elim (to_str value) [
    | none ↦ codes "http"
    | some text ↦
        unwrap_or
          (filter_option (λ s. text_eq s (codes "http") || text_eq s (codes "https"))
            (some (trim (before b',' text))))
          (codes "http")
  ]
]

unfoldable pub host : Headers → Text
unfolding get_header to_str
host headers = elim (get_header "host" headers) [
  | none ↦ codes "localhost"
  | some value ↦ unwrap_or (to_str value) (codes "localhost")
]

unfoldable pub location : Config → Headers → Text → Text
unfolding scheme host trim_end_matches
location config headers path = elim config.public_origin [
  | some origin ↦ trim_end_matches b'/' origin ++ path
  | none ↦ scheme headers ++ (codes "://" ++ (host headers ++ path))
]

unfoldable pub set_location : Config → Headers → Text → Headers → Headers
unfolding location is_header_value set_header
set_location config request_headers path headers =
    let value = location config request_headers path in
    if is_header_value value then set_header "location" value headers else headers
