-- ===== src/Server/Serverless/Copied.antt =====
-- What src/serverless_http.rs copies of a request's headers.
use mathlib.Core.List.{append-nil, append_assoc}
use text.Mathlib.Text.{◌==◌ as str_eq}
use text.Mathlib.TextEquality.{eq_iff}
use rivet_durable_streams.Prelude.{
  ◌≡◌, refl, String, Text, List, [], ◌∷◌, ◌++◌, Option, none, some, if◌then◌else◌, codes, arith,
  Option-cases, Bool-cases, inl, inr, sym,
}
use rivet_durable_streams.Protocol.Http.{Headers, get_header}
use rivet_durable_streams.Facade.HeaderMap.{to_str}
use rivet_durable_streams.Server.Serverless.{push_value, copy_into, copy_headers}

-- The values of a name that are readable texts, in their order.
unfoldable pub readable_values : String → Headers → List Text
unfolding to_str
readable_values name [] = []
readable_values name ((key, value) ∷ rest) =
    let later = readable_values name rest in
    elim (to_str value) [
      | none ↦ later
      | some readable ↦ if str_eq key name then readable ∷ later else later
    ]

-- Each value after a comma.
unfoldable pub continued : List Text → Text
continued [] = []
continued (value ∷ values) = codes ", " ++ value ++ continued values

unfoldable pub joined_with_commas : List Text → Option Text
unfolding continued
joined_with_commas [] = none
joined_with_commas (value ∷ values) = some (value ++ continued values)

-- What a name has after a value, or several, are added to it.
unfoldable added_one : Option Text → Text → Text
added_one none value = value
added_one (some existing) value = existing ++ codes ", " ++ value

unfoldable added : Option Text → List Text → Option Text
unfolding continued joined_with_commas
added none values = joined_with_commas values
added (some existing) values = some (existing ++ continued values)

get_header-push_value :
    (name key : String) (value : Text) (headers : Headers)
    → get_header name (push_value key value headers) ≡ (
        if str_eq key name
        then some (added_one (get_header name headers) value)
        else get_header name headers)
unfolding get_header push_value added_one
get_header-push_value name key value [] = refl
get_header-push_value name key value ((other, existing) ∷ headers) = ground (
  arith,
  get_header-push_value name key value headers,
  eq_iff other key,
  eq_iff other name,
  eq_iff key name,
)

added-added_one :
    (held : Option Text) (value : Text) (values : List Text)
    → added (some (added_one held value)) values ≡ added held (value ∷ values)
unfolding added added_one joined_with_commas continued
added-added_one none value values = refl
added-added_one (some existing) value values = simp append_assoc

added-some : (existing : Text) → added (some existing) [] ≡ some existing
unfolding added continued
added-some existing = rw append-nil

added_nothing : (held : Option Text) → added held [] ≡ held
unfolding added joined_with_commas
added_nothing none = refl
added_nothing (some existing) = added-some existing

get_header-copy_into :
    (name : String) (headers source : Headers)
    → get_header name (copy_into headers source)
      ≡ added (get_header name headers) (readable_values name source)
unfolding copy_into readable_values
get_header-copy_into name headers [] = sym (added_nothing (get_header name headers))
get_header-copy_into name headers ((key, value) ∷ source) = elim (Option-cases (to_str value)) [
  | inl e ↦ rw (e, copy_into, readable_values) (get_header-copy_into name headers source)
  | inr (readable, e) ↦
      let ih = get_header-copy_into name (push_value key readable headers) source in
      rw (e, copy_into, readable_values, ih, get_header-push_value name key readable headers)
        (elim (Bool-cases (str_eq key name)) [
          | inl same ↦
              rw same
                (added-added_one (get_header name headers) readable (readable_values name source))
          | inr other ↦ rw other
        ])
]

-- The copied headers hold under each name the values of the request's headers of that name, in
-- their order and joined by commas, but for those that are no readable texts.
pub get_header-copy_headers :
    (name : String) (source : Headers)
    → get_header name (copy_headers source) ≡ joined_with_commas (readable_values name source)
unfolding get_header copy_headers added
get_header-copy_headers name source = get_header-copy_into name [] source
