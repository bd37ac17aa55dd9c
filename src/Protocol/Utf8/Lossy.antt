-- ===== src/Protocol/Utf8/Lossy.antt =====
-- `String::from_utf8_lossy` beside `String::from_utf8`.
use rivet_durable_streams.Prelude.{
  ℕ, ◌≡◌, refl, ap, ◌∙◌, true, Bytes, [], ◌∷◌, ◌++◌, some, arith, Option-cases, inl, inr,
}
use mathlib.Core.List.{append_assoc}
use rivet_durable_streams.Protocol.Utf8.{
  Expect, lead, tail, next_byte, accepts, is_utf8, lossy, from_utf8_lossy,
}

abbrev Fits : Expect → Bytes → Type 0
Fits lead piece = piece ≡ []
Fits (tail more low high) piece = Unit {0}

stepped :
    (e next : Expect) (piece : Bytes) (b : ℕ) (bs : Bytes)
    → next_byte e b ≡ some next
    → ((piece : Bytes) → Fits next piece → lossy next piece bs ≡ piece ++ bs)
    → lossy e piece (b ∷ bs) ≡ piece ++ (b ∷ bs)
unfolding lossy
stepped e lead piece b bs h ih = rw (h, lossy) (ap (λ r. piece ++ (b ∷ r)) (ih [] refl))
stepped e (tail more low high) piece b bs h ih =
    rw (h, lossy) (ih (piece ++ b ∷ []) tt ∙ append_assoc piece (b ∷ []) bs)

lossy_lem :
    (e : Expect) (piece bs : Bytes)
    → Fits e piece
    → accepts e bs ≡ true
    → lossy e piece bs ≡ piece ++ bs
unfolding accepts lossy
lossy_lem lead piece [] f h = rw f refl
lossy_lem (tail more low high) piece [] f h = cc
lossy_lem e piece (b ∷ bs) f h = elim (Option-cases (next_byte e b)) [
  | inl stuck ↦ absurd (ground arith)
  | inr (next, found) ↦
      let go_on : accepts next bs ≡ true = ground arith in
      stepped e next piece b bs found (λ p fits. lossy_lem next p bs fits go_on)
]

pub from_utf8_lossy-is_utf8 : (bytes : Bytes) → is_utf8 bytes ≡ true → from_utf8_lossy bytes ≡ bytes
unfolding is_utf8 from_utf8_lossy
from_utf8_lossy-is_utf8 bytes h = lossy_lem lead [] bytes refl h
