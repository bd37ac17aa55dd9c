-- ===== src/Facade/Bridge/Restored.antt =====
-- `bridge_request_headers` of src/facade.rs and `public_header_bytes` of src/protocol.rs: the two ends
-- of the bridge.
use Prim.Native.String.{◌++◌ as str_append}
use Prim.Native.String.append
use text.Mathlib.TextLemmas.{append_cancel_left}
use text.Mathlib.Text.{◌==◌ as str_eq}
use text.Mathlib.TextEquality.{eq_iff}
use rivet_durable_streams.Prelude.{
  ◌≡◌, refl, ap, ◌∙◌, Bool, true, false, String, Text, List, [], ◌∷◌, Option, none, some,
  if◌then◌else◌, arith, ok, first, codes, not, all, ◌==◌, is_some_and, ◌≢◌, ◌||◌,
}
use rivet_durable_streams.Protocol.Http.{
  Headers, Request, get_header, internal_header_prefix, public_header_bytes, decode_bridged,
}
use rivet_durable_streams.Store.Platform.{Platform}
use rivet_durable_streams.Facade.HeaderMap.{set_header, is_header_value}
use rivet_durable_streams.Facade.HeaderMap.Lookups.{get_header-set_header}
use rivet_durable_streams.Facade.Bridge.{
  bridged_request_headers, encode_header, bridge_header, bridge_names, bridge_request_headers,
}

abbrev internal : String → String
internal = str_append internal_header_prefix

internal_eq : (a b : String) → str_eq (internal a) (internal b) ≡ str_eq a b
internal_eq a b = ground (
  arith,
  eq_iff (internal a) (internal b),
  eq_iff a b,
  append_cancel_left internal_header_prefix a b,
  ap internal {x = a} {y = b},
)

internal-cons : (a : String) → internal a ≡ String.◌∷◌ "x" (str_append "-rivet-ds-h-" a)
internal-cons a = append.cons "x" "-rivet-ds-h-" a

abbrev pub is_among : String → List String → Bool
is_among name [] = false
is_among name (x ∷ xs) = str_eq x name || is_among name xs

-- No name in front of the bridge is an internal one.
abbrev IsPublic : String → Type 0
IsPublic name = (other : String) → str_eq (internal other) name ≡ false

-- The first letter tells an internal name from a public one.
starts_otherwise : (name : String) → first (codes name) ≢ some b'x' → IsPublic name
unfolding codes
starts_otherwise name h other =
    let letter : first (codes (internal other)) ≡ some b'x' = rw (internal-cons other) refl in
    ground (
      arith,
      eq_iff (internal other) name,
      ap (λ (s : String). first (codes s)) {x = internal other} {y = name},
    )

abbrev starts_with_x : String → Bool
starts_with_x name = is_some_and (first (codes name)) (λ c. c == b'x')

among-IsPublic :
    (name : String) (names : List String)
    → all (λ n. not (starts_with_x n)) names ≡ true
    → is_among name names ≡ true
    → starts_with_x name ≡ false
unfolding all
among-IsPublic name [] a h = cc
among-IsPublic name (x ∷ xs) a h =
    ground (arith, eq_iff x name, among-IsPublic name xs, ap starts_with_x {x = x} {y = name})

bridged-IsPublic : (name : String) → is_among name bridged_request_headers ≡ true → IsPublic name
unfolding all codes
bridged-IsPublic name h =
    let plain : starts_with_x name ≡ false =
      among-IsPublic name bridged_request_headers all_plain h in
    starts_otherwise name (λ e. cc (plain, ap (λ o. is_some_and o (λ c. c == b'x')) e))
  where
    all_plain : all (λ n. not (starts_with_x n)) bridged_request_headers ≡ true
    all_plain = refl

module _ (p : Platform) (headers : Headers) where
  -- What an internal name has in the end, where it had `old`.
  abbrev sent : Option Text → Option Text → Option Text
  sent none old = old
  sent (some value) old = some (p.url_encode value)

  module _ (valid : (value : Text) → is_header_value (p.url_encode value) ≡ true) (name : String)
      (public : IsPublic name) where
    bridge_header_lem :
        (x : String) (found : Option Text) (acc : Headers)
        → (b : Headers) × (bridge_header p x found acc ≡ ok b)
          × (get_header (internal name) b ≡ (
              if str_eq x name
              then sent found (get_header (internal name) acc)
              else get_header (internal name) acc))
          × (get_header name b ≡ get_header name acc)
    unfolding bridge_header encode_header
    bridge_header_lem x none acc = (acc, refl, ground arith, refl)
    bridge_header_lem x (some v) acc = (
      set_header (internal x) (p.url_encode v) acc,
      rw (valid v) refl,
      get_header-set_header (internal name) (internal x) (p.url_encode v) acc
          ∙ rw (internal_eq x name) refl,
      get_header-set_header name (internal x) (p.url_encode v) acc ∙ rw (public x) refl,
    )

    settled :
        (x : String) (xs : List String) (first last old found mine : Option Text)
        → (x ≡ name → found ≡ mine)
        → first ≡ (if str_eq x name then sent found old else old)
        → last ≡ (if is_among name xs then sent mine first else first)
        → last ≡ (if str_eq x name || is_among name xs then sent mine old else old)
    settled x xs first last old found mine h e e' = ground (arith, eq_iff x name)

    bridge_names_lem :
        (names : List String) (acc : Headers)
        → (b : Headers) × (bridge_names p names headers acc ≡ ok b)
          × (get_header (internal name) b ≡ (
              if is_among name names
              then sent (get_header name headers) (get_header (internal name) acc)
              else get_header (internal name) acc))
          × (get_header name b ≡ get_header name acc)
    unfolding bridge_names
    bridge_names_lem [] acc = (acc, refl, refl, refl)
    bridge_names_lem (x ∷ xs) acc =
        let (b, e, here, there) = bridge_header_lem x (get_header x headers) acc in
        let (c, e', here', there') = bridge_names_lem xs b in
        (
          c,
          rw e e',
          settled x xs _ _ _ (get_header x headers) (get_header name headers)
              (ap (λ n. get_header n headers) {x = x} {y = name}) here here',
          there' ∙ there,
        )

  read_bridged :
      (name : String) (bridged : Headers) (request : Request) (found : Option Text)
      → ((value : Text) → p.url_decode (p.url_encode value) ≡ some value)
      → get_header (internal name) bridged ≡ sent found none
      → get_header name bridged ≡ none
      → public_header_bytes p (record request { headers = bridged }) name ≡ ok found
  unfolding public_header_bytes decode_bridged
  read_bridged name bridged request none decodes e plain = ground arith
  read_bridged name bridged request (some value) decodes e plain = ground (arith, decodes value)

  -- Where base64 gives texts that a header may hold and decodes what it encodes, the headers of a
  -- request pass the bridge, and the actor reads under each of the bridged names the bytes that the
  -- public request had under it, or none where it had none.
  pub bridge_request_headers_restored :
      ((value : Text) → is_header_value (p.url_encode value) ≡ true)
      → ((value : Text) → p.url_decode (p.url_encode value) ≡ some value)
      → (name : String) (request : Request) → is_among name bridged_request_headers ≡ true
      → (bridged : Headers) × (bridge_request_headers p headers ≡ ok bridged)
        × (public_header_bytes p (record request { headers = bridged }) name
            ≡ ok (get_header name headers))
  unfolding bridge_request_headers get_header
  bridge_request_headers_restored valid decodes name request among =
      let (bridged, e, here, there) =
        bridge_names_lem valid name (bridged-IsPublic name among) bridged_request_headers [] in
      (
        bridged,
        e,
        read_bridged name bridged request (get_header name headers) decodes (here ∙ rw among refl)
            there,
      )
