-- ===== src/Facade/HeaderMap.antt =====
-- The http crate's `HeaderMap` as src/facade.rs uses it: a list of pairs, in which a name may occur
-- more than once, and the bytes that a `HeaderValue` may hold.
pub mod Lookups
use text.Mathlib.Text.{◌==◌ as str_eq}
use rivet_durable_streams.Prelude.{
  ℕ, Bool, not, ◌&&◌, ◌||◌, String, Text, [], ◌∷◌, ◌++◌, Option, none, some, ltb, leb, ◌==◌, all,
  if◌then◌else◌,
}
use rivet_durable_streams.Protocol.Http.{Headers, remove_header}

-- `HeaderMap::insert`: the value replaces all that the name had.
unfoldable pub set_header : String → Text → Headers → Headers
unfolding remove_header
set_header name value [] = (name, value) ∷ []
set_header name value ((key, old) ∷ rest) =
    let later = set_header name value rest in
    if str_eq key name then (key, value) ∷ remove_header name rest else (key, old) ∷ later

-- `HeaderMap::append`
unfoldable pub append_header : String → Text → Headers → Headers
append_header name value headers = headers ++ (name, value) ∷ []

-- `HeaderValue::from_str` accepts these bytes.
unfoldable pub is_header_value : Text → Bool
unfolding all
is_header_value = all (λ b. b == 9 || (leb 32 b && not (b == 127)))

-- `HeaderValue::to_str`
unfoldable pub to_str : Text → Option Text
unfolding all
to_str value = if all (λ b. b == 9 || (leb 32 b && ltb b 127)) value then some value else none
