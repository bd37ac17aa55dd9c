-- ===== src/Facade/Handle/Cors.antt =====
-- src/facade.rs: the headers that `apply_cors` leaves, and what later insertions keep of them.
use text.Mathlib.Text.{◌==◌ as str_eq}
use rivet_durable_streams.Prelude.{
  ℕ, ◌≡◌, refl, Bool, true, false, not, String, Text, Bytes, List, [], ◌∷◌, some, if◌then◌else◌,
  all, all-append, codes, arith, Result, ok, Bool-cases, inl, inr,
}
use rivet_durable_streams.Protocol.Content.{starts_with}
use rivet_durable_streams.Protocol.Http.{Headers, get_header, remove_header}
use rivet_durable_streams.Facade.HeaderMap.{set_header, is_header_value, append_header}
use rivet_durable_streams.Facade.HeaderMap.Lookups.{get_header-set_header}
use rivet_durable_streams.Facade.Upstream.{Config}
use rivet_durable_streams.Facade.Reply.{
  apply_cors, allow_headers, expose_headers, cors_response, cors_text,
}
use rivet_durable_streams.Facade.Routing.{set_location, location}
use rivet_durable_streams.Facade.Handle.{append_public}

abbrev pub is_public : String → Bool
is_public name = not (starts_with (codes "x-rivet-") (codes name))

abbrev pub all_public : Headers → Bool
all_public = all (λ header. is_public header.0)

-- No header begins with `x-rivet-`, and any origin may read the answer and its stream headers.
pub record IsOpen (headers : Headers) : Type 0 where
  pub no_internal : all_public headers ≡ true
  pub origin : get_header "access-control-allow-origin" headers ≡ some (codes "*")
  pub methods :
      get_header "access-control-allow-methods" headers
      ≡ some (codes "GET, POST, PUT, DELETE, HEAD, OPTIONS")
  pub request_headers : get_header "access-control-allow-headers" headers ≡ some allow_headers
  pub exposed : get_header "access-control-expose-headers" headers ≡ some expose_headers
  pub sniffing : get_header "x-content-type-options" headers ≡ some (codes "nosniff")
  pub resource_policy :
      get_header "cross-origin-resource-policy" headers ≡ some (codes "cross-origin")

all_public-remove_header :
    (name : String) (hs : Headers)
    → all_public hs ≡ true
    → all_public (remove_header name hs) ≡ true
unfolding all remove_header
all_public-remove_header name [] h = refl
all_public-remove_header name ((key, value) ∷ hs) h =
    ground (arith, all_public-remove_header name hs)

all_public-set_header :
    (name : String) (value : Text) (hs : Headers)
    → is_public name ≡ true
    → all_public hs ≡ true
    → all_public (set_header name value hs) ≡ true
unfolding all set_header
all_public-set_header name value [] p h = rw p refl
all_public-set_header name value ((key, old) ∷ hs) p h =
    ground (arith, all_public-set_header name value hs, all_public-remove_header name hs)

all_public-append_step :
    (hs : Headers) (name : String) (value : Text)
    → all_public hs ≡ true
    → all_public
        (if starts_with (codes "x-rivet-") (codes name) then hs else append_header name value hs)
      ≡ true
unfolding append_header all
all_public-append_step hs name value h =
    ground (arith, all-append {0} (λ (n : String × Text). is_public n.0) hs ((name, value) ∷ []))

pub all_public-append_public :
    (hs actor_headers : Headers)
    → all_public hs ≡ true
    → all_public (append_public hs actor_headers) ≡ true
unfolding append_public
all_public-append_public hs [] h = h
all_public-append_public hs ((name, value) ∷ rest) h =
    all_public-append_public
      (if starts_with (codes "x-rivet-") (codes name) then hs else append_header name value hs) rest
      (all_public-append_step hs name value h)

-- The names that the facade sets are public.
cors_names_public :
    (is_public "access-control-allow-origin" ≡ true)
    × (is_public "access-control-allow-methods" ≡ true)
    × (is_public "access-control-allow-headers" ≡ true)
    × (is_public "access-control-expose-headers" ≡ true)
    × (is_public "x-content-type-options" ≡ true)
    × (is_public "cross-origin-resource-policy" ≡ true)
unfolding starts_with codes
cors_names_public = (refl, refl, refl, refl, refl, refl)

pub apply_cors-IsOpen : (hs : Headers) → all_public hs ≡ true → IsOpen (apply_cors hs)
unfolding apply_cors
apply_cors-IsOpen hs h =
    let (origin, methods, allowed, exposed, sniffing, policy) = cors_names_public in
    record {
      no_internal = all_public-set_header _ _ _ policy (
          all_public-set_header _ _ _ sniffing (
            all_public-set_header _ _ _ exposed (
              all_public-set_header _ _ _ allowed
                (all_public-set_header _ _ _ methods (all_public-set_header _ _ _ origin h)))));
      origin = simp get_header-set_header;
      methods = simp get_header-set_header;
      request_headers = simp get_header-set_header;
      exposed = simp get_header-set_header;
      sniffing = simp get_header-set_header;
      resource_policy = simp get_header-set_header;
    }

-- A header of another name leaves them as they are.
abbrev pub IsExtra : String → Type 0
IsExtra name =
    (str_eq name "access-control-allow-origin" ≡ false)
    × (str_eq name "access-control-allow-methods" ≡ false)
    × (str_eq name "access-control-allow-headers" ≡ false)
    × (str_eq name "access-control-expose-headers" ≡ false)
    × (str_eq name "x-content-type-options" ≡ false)
    × (str_eq name "cross-origin-resource-policy" ≡ false)

pub set_header-IsOpen :
    (name : String) (value : Text) (hs : Headers)
    → is_public name ≡ true
    → IsExtra name
    → IsOpen hs
    → IsOpen (set_header name value hs)
set_header-IsOpen name value hs p (origin, methods, allowed, exposed, sniffing, policy) h = record {
  no_internal = all_public-set_header name value hs p h.no_internal;
  origin = simp (get_header-set_header, origin) h.origin;
  methods = simp (get_header-set_header, methods) h.methods;
  request_headers = simp (get_header-set_header, allowed) h.request_headers;
  exposed = simp (get_header-set_header, exposed) h.exposed;
  sniffing = simp (get_header-set_header, sniffing) h.sniffing;
  resource_policy = simp (get_header-set_header, policy) h.resource_policy;
}

pub extra_names_public : (is_public "location" ≡ true) × (is_public "allow" ≡ true)
unfolding starts_with codes
extra_names_public = (refl, refl)

pub set_location-IsOpen :
    (config : Config) (request_headers : Headers) (path : Text) (hs : Headers)
    → IsOpen hs
    → IsOpen (set_location config request_headers path hs)
unfolding set_location
set_location-IsOpen config request_headers path hs h =
    elim (Bool-cases (is_header_value (location config request_headers path))) [
      | inl fits ↦ rw fits (
          set_header-IsOpen "location" _ hs extra_names_public.0
            (refl, refl, refl, refl, refl, refl) h)
      | inr bad ↦ rw bad h
    ]

pub cors_response-IsOpen :
    (status : ℕ) (body : List (Result Bytes)) → IsOpen (cors_response status body).headers
unfolding cors_response all
cors_response-IsOpen status body = apply_cors-IsOpen [] refl

pub cors_text-IsOpen : (status : ℕ) (message : Text) → IsOpen (cors_text status message).headers
unfolding cors_text
cors_text-IsOpen status message = cors_response-IsOpen status (ok message ∷ [])
