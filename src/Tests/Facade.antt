-- ===== src/Tests/Facade.antt =====
-- Concrete inputs for the theorems on src/facade.rs.
use rivet_durable_streams.Prelude.{
  ℕ, zero, suc, ◌+◌, ◌≡◌, refl, ap, ◌∙◌, ◌⊎◌, ◌≢◌, true, false, Text, Bytes, [], ◌∷◌, Option, none,
  some, codes, all, ◌==◌, ok, arith,
}
use rivet_durable_streams.Protocol.Http.{Headers, Request, Method, get_header, public_header_bytes}
use rivet_durable_streams.Store.Platform.{Platform}
use rivet_durable_streams.Facade.HeaderMap.{is_header_value}
use rivet_durable_streams.Facade.Upstream.{PublicMethod, PublicRequest, Upstream, default_config}
use rivet_durable_streams.Facade.Body.{collect_bounded_body}
use rivet_durable_streams.Facade.Body.Bounded.{joined, collect_bounded_body_lem}
use rivet_durable_streams.Facade.Bridge.{bridge_request_headers}
use rivet_durable_streams.Facade.Bridge.Restored.{bridge_request_headers_restored}
use rivet_durable_streams.Facade.Routing.Keys.{stream_actor_key_separates}
use rivet_durable_streams.Facade.Handle.{handle}
use rivet_durable_streams.Facade.Handle.Cors.{IsOpen}
use rivet_durable_streams.Facade.Handle.Answers.{handle-IsOpen}
use rivet_durable_streams.Tests.Data.{platform}

collect_bounded_body_lem_example :
    collect_bounded_body (ok (1 ∷ 2 ∷ []) ∷ ok (3 ∷ []) ∷ []) 2 ≡ ok none
unfolding joined
collect_bounded_body_lem_example =
    collect_bounded_body_lem 2 (omega arith) (ok (1 ∷ 2 ∷ []) ∷ ok (3 ∷ []) ∷ [])

-- An encoding as visible letters: each number as so many a's and a b.
unary : ℕ → Text → Text
unary zero rest = b'b' ∷ rest
unary (suc n) rest = b'a' ∷ unary n rest

letters : Bytes → Text
unfolding unary
letters [] = []
letters (n ∷ ns) = unary n (letters ns)

numbers : ℕ → Text → Option Bytes
numbers n [] = some []
numbers n (c ∷ cs) = elim (c == b'a') [
  | true ↦ numbers (suc n) cs
  | false ↦ elim (numbers 0 cs) [ none ↦ none | some ns ↦ some (n ∷ ns) ]
]

unary-is_header_value :
    (n : ℕ) (rest : Text) → is_header_value rest ≡ true → is_header_value (unary n rest) ≡ true
unfolding unary is_header_value all
unary-is_header_value zero rest h = h
unary-is_header_value (suc n) rest h = unary-is_header_value n rest h

letters-is_header_value : (bytes : Bytes) → is_header_value (letters bytes) ≡ true
unfolding letters is_header_value all
letters-is_header_value [] = refl
letters-is_header_value (n ∷ ns) = unary-is_header_value n (letters ns) (letters-is_header_value ns)

numbers-unary :
    (k n : ℕ) (rest : Text) (ns : Bytes)
    → numbers 0 rest ≡ some ns
    → numbers k (unary n rest) ≡ some ((k + n) ∷ ns)
unfolding numbers unary
numbers-unary k zero rest ns h = rw h (ap (λ m. some (m ∷ ns)) (omega arith))
numbers-unary k (suc n) rest ns h =
    numbers-unary (suc k) n rest ns h ∙ ap (λ m. some (m ∷ ns)) (omega arith)

numbers-letters : (bytes : Bytes) → numbers 0 (letters bytes) ≡ some bytes
unfolding letters numbers
numbers-letters [] = refl
numbers-letters (n ∷ ns) =
    numbers-unary 0 n (letters ns) ns (numbers-letters ns) ∙ ap (λ m. some (m ∷ ns)) (omega arith)

abbrev lettered : Platform
lettered = record platform { url_encode = letters; url_decode = numbers 0 }

abbrev with_seq : Headers
with_seq = ("host", codes "h") ∷ ("stream-seq", 0x80 ∷ b'a' ∷ []) ∷ []

abbrev bare : Request
bare = record { method = Method.post; query = []; headers = []; body = [] }

bridge_request_headers_restored_example :
    (bridged : Headers) × (bridge_request_headers lettered with_seq ≡ ok bridged)
    × (public_header_bytes lettered (record bare { headers = bridged }) "stream-seq"
        ≡ ok (get_header "stream-seq" with_seq))
bridge_request_headers_restored_example =
    bridge_request_headers_restored lettered with_seq letters-is_header_value numbers-letters
      "stream-seq" bare refl

abbrev upstream : Upstream
upstream = record {
  platform = lettered;
  url_path = λ path. ok path;
  sha256_hex = λ bytes. bytes;
  Rest = Unit {0};
  Handle = Unit {0};
  get = λ name key. ok tt;
  get_or_create = λ name key input. ok tt;
  resolve_handle = λ handle rest. (record { ready_ms = 3; outcome = ok tt }, rest);
  resolve_optional = λ handle rest. (record { ready_ms = 3; outcome = ok (some tt) }, rest);
  fetch = λ handle arguments rest. (
    record {
      ready_ms = 5;
      outcome = ok (record { status = 201; headers = ("x-rivet-a", []) ∷ []; body = [] });
    },
    rest,
  );
}

stream_actor_key_separates_example :
    ((codes "t" ≡ codes "t") × (codes "/s" ≡ codes "/s"))
    ⊎ ((a : Bytes) × (b : Bytes) × (a ≢ b) × (a ≡ b))
unfolding all codes
stream_actor_key_separates_example =
    stream_actor_key_separates upstream (codes "t") (codes "t") (codes "/s") (codes "/s") refl refl
      refl

abbrev creation : PublicRequest
creation = record {
  method = PublicMethod.put;
  original_path = codes "/v1/stream/s";
  path = codes "/s";
  query = none;
  headers = with_seq;
  body = ok (1 ∷ []) ∷ [];
  body_ms = 2;
}

handle-IsOpen_example : IsOpen (handle upstream default_config creation tt).0.headers
handle-IsOpen_example = handle-IsOpen upstream default_config creation tt
