-- ===== src/Facade/HeaderMap/Lookups.antt =====
-- What a name has in a `HeaderMap` after an insertion.
use text.Mathlib.Text.{◌==◌ as str_eq}
use text.Mathlib.TextEquality.{eq_iff}
use rivet_durable_streams.Prelude.{
  ◌≡◌, refl, String, Text, [], ◌∷◌, none, some, if◌then◌else◌, arith,
}
use rivet_durable_streams.Protocol.Http.{Headers, get_header, remove_header}
use rivet_durable_streams.Facade.HeaderMap.{set_header}

get_header-remove_header :
    (name removed : String) (hs : Headers)
    → get_header name (remove_header removed hs)
      ≡ (if str_eq removed name then none else get_header name hs)
unfolding get_header remove_header
get_header-remove_header name removed [] = ground arith
get_header-remove_header name removed ((key, value) ∷ hs) = ground (
  arith,
  get_header-remove_header name removed hs,
  eq_iff key removed,
  eq_iff key name,
  eq_iff removed name,
)

pub get_header-set_header :
    (name set : String) (value : Text) (hs : Headers)
    → get_header name (set_header set value hs)
      ≡ (if str_eq set name then some value else get_header name hs)
unfolding get_header set_header
get_header-set_header name set value [] = refl
get_header-set_header name set value ((key, old) ∷ hs) = ground (
  arith,
  get_header-set_header name set value hs,
  get_header-remove_header name set hs,
  eq_iff key set,
  eq_iff key name,
  eq_iff set name,
)
