-- ===== src/Protocol/Http.antt =====
-- src/protocol.rs: requests, responses and the public headers. A map of headers is a list of pairs.
use Prim.Native.String.{◌++◌ as str_append}
use text.Mathlib.Text.{◌==◌ as str_eq}
use rivet_durable_streams.Prelude.{
  ℕ, Bool, String, Text, Bytes, List, [], ◌∷◌, Option, none, some, if◌then◌else◌, codes,
  is_some_and, Result, ok, err, ◌>>=◌,
}
use rivet_durable_streams.Protocol.Utf8.{is_utf8}
use rivet_durable_streams.Protocol.Content.{eq_ignore_ascii_case}
use rivet_durable_streams.Store.Platform.{Platform}

pub data Method : Type 0 where
  get head put post delete other : Method

abbrev pub Headers : Type 0
Headers = List (String × Text)

-- The query's pairs are those that the url crate decodes.
pub record Request : Type 0 where
  pub method : Method
  pub query : List (Text × Text)
  pub headers : Headers
  pub body : Bytes

pub record Response : Type 0 where
  pub status : ℕ
  pub headers : Headers
  pub body : Bytes

unfoldable pub get_header : String → Headers → Option Text
get_header name [] = none
get_header name ((key, value) ∷ rest) = if str_eq key name then some value else get_header name rest

-- `HashMap::insert`
unfoldable pub insert_header : String → Text → Headers → Headers
insert_header name value [] = (name, value) ∷ []
insert_header name value ((key, old) ∷ rest) =
    if str_eq key name then (key, value) ∷ rest else (key, old) ∷ insert_header name value rest

-- `HashMap::extend` and `collect`: a later pair replaces an earlier one of the same name.
unfoldable pub extend_headers : Headers → Headers → Headers
unfolding insert_header
extend_headers headers [] = headers
extend_headers headers ((name, value) ∷ rest) =
    extend_headers (insert_header name value headers) rest

unfoldable pub remove_header : String → Headers → Headers
remove_header name [] = []
remove_header name ((key, value) ∷ rest) =
    let others = remove_header name rest in
    if str_eq key name then others else (key, value) ∷ others

unfoldable pub response : ℕ → Headers → Bytes → Response
unfolding extend_headers
response status headers body = record {
  status = status;
  headers = extend_headers [] headers;
  body = body;
}

unfoldable pub text_response : ℕ → Text → Headers → Response
unfolding extend_headers
text_response status message extra_headers = record {
  status = status;
  headers =
      extend_headers
        (("content-type", codes "text/plain; charset=utf-8")
          ∷ ("cache-control", codes "no-store")
          ∷ [])
        extra_headers;
  body = message;
}

abbrev pub internal_header_prefix : String
internal_header_prefix = "x-rivet-ds-h-"

module _ (p : Platform) where
  unfoldable pub decode_bridged : Text → Result (Option Bytes)
  decode_bridged value = elim (p.url_decode value) [
    | none ↦ err "invalid bridged header"
    | some bytes ↦ ok (some bytes)
  ]

  unfoldable pub public_header_bytes : Request → String → Result (Option Bytes)
  unfolding get_header decode_bridged
  public_header_bytes request name =
      elim (get_header (str_append internal_header_prefix name) request.headers) [
        | some value ↦ decode_bridged value
        | none ↦ ok (get_header name request.headers)
      ]

  unfoldable pub as_text : Option Bytes → Result (Option Text)
  as_text none = ok none
  as_text (some bytes) = if is_utf8 bytes then ok (some bytes) else err "invalid utf-8 sequence"

  unfoldable pub public_header_text : Request → String → Result (Option Text)
  unfolding public_header_bytes as_text
  public_header_text request name = do bytes ← public_header_bytes request name; as_text bytes

  unfoldable pub header_is_true : Request → String → Result Bool
  unfolding public_header_text
  header_is_true request name = do
    value ← public_header_text request name
    ok (is_some_and value (λ v. eq_ignore_ascii_case v (codes "true")))
