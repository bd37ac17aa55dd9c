-- ===== src/Protocol/Content/Normal.antt =====
-- Content types that `sanitize_content_type` lets through, and case in `normalize_content_type`.
use rivet_durable_streams.Prelude.{
  ℕ, ◌≡◌, refl, ap, Bool, true, Text, [], ◌∷◌, Option, none, some, all, codes, arith,
}
use rivet_durable_streams.Protocol.Content.{
  to_lower, to_ascii_lowercase, is_header_char, sanitize_content_type, default_content_type,
}

to_lower_idem : (c : ℕ) → to_lower (to_lower c) ≡ to_lower c
unfolding to_lower
to_lower_idem c = ground arith

to_ascii_lowercase_idem :
    (t : Text) → to_ascii_lowercase (to_ascii_lowercase t) ≡ to_ascii_lowercase t
unfolding to_ascii_lowercase
to_ascii_lowercase_idem [] = refl
to_ascii_lowercase_idem (c ∷ cs) = cc (to_lower_idem c, to_ascii_lowercase_idem cs)

default_is_header : all is_header_char (codes "application/octet-stream") ≡ true
unfolding all is_header_char codes
default_is_header = refl

-- A content type that `sanitize_content_type` returns has only bytes that a header may hold.
pub sanitize_content_type_safe :
    (value : Option Text) (is_fork : Bool) (t : Text)
    → sanitize_content_type value is_fork ≡ some t
    → all is_header_char t ≡ true
unfolding sanitize_content_type default_content_type
sanitize_content_type_safe none is_fork t h =
    ground (arith, default_is_header, ap (all is_header_char))
sanitize_content_type_safe (some value) is_fork t h =
    ground (arith, default_is_header, ap (all is_header_char))
