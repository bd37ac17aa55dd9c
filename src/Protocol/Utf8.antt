-- ===== src/Protocol/Utf8.antt =====
-- `String::from_utf8` of the standard library, as an automaton over the bytes.
pub mod Lossy
use rivet_durable_streams.Prelude.{
  ℕ, ◌-◌, Bool, true, false, ◌&&◌, Bytes, [], ◌∷◌, Option, none, some, ltb, leb, ◌==◌,
  if◌then◌else◌, ◌++◌, is_empty,
}

-- What the next byte must be: a first byte, or one of so many further bytes, the first of them in
-- a range.
pub data Expect : Type 0 where
  lead : Expect
  tail : ℕ → ℕ → ℕ → Expect

first_byte : ℕ → Option Expect
first_byte b =
    if ltb b 0x80
    then some lead
    else if leb 0xc2 b && leb b 0xdf
    then some (tail 0 0x80 0xbf)
    else if b == 0xe0
    then some (tail 1 0xa0 0xbf)
    else if b == 0xed
    then some (tail 1 0x80 0x9f)
    else if leb 0xe1 b && leb b 0xef
    then some (tail 1 0x80 0xbf)
    else if b == 0xf0
    then some (tail 2 0x90 0xbf)
    else if leb 0xf1 b && leb b 0xf3
    then some (tail 2 0x80 0xbf)
    else if b == 0xf4
    then some (tail 2 0x80 0x8f)
    else none

next_byte : Expect → ℕ → Option Expect
unfolding first_byte
next_byte lead b = first_byte b
next_byte (tail more low high) b =
    if leb low b && leb b high
    then some (if more == 0 then lead else tail (more - 1) 0x80 0xbf)
    else none

accepts : Expect → Bytes → Bool
unfolding next_byte
accepts lead [] = true
accepts (tail more low high) [] = false
accepts e (b ∷ bs) = elim (next_byte e b) [ none ↦ false | some e' ↦ accepts e' bs ]

unfoldable pub is_utf8 : Bytes → Bool
unfolding accepts
is_utf8 = accepts lead

-- U+FFFD
replacement : Bytes
replacement = 0xef ∷ 0xbf ∷ 0xbd ∷ []

-- `String::from_utf8_lossy`: each longest piece that could begin a character but does not go on as
-- one is replaced. The second argument is the piece so far.
unfoldable pub lossy : Expect → Bytes → Bytes → Bytes
unfolding next_byte first_byte replacement
lossy e piece [] = if is_empty piece then [] else replacement
lossy e piece (b ∷ bs) = elim (next_byte e b) [
  | some lead ↦ piece ++ (b ∷ lossy lead [] bs)
  | some (tail more low high) ↦ lossy (tail more low high) (piece ++ b ∷ []) bs
  | none ↦ replacement ++ elim (is_empty piece) [
    | true ↦ lossy lead [] bs
    | false ↦ elim (first_byte b) [
      | some lead ↦ b ∷ lossy lead [] bs
      | some (tail more low high) ↦ lossy (tail more low high) (b ∷ []) bs
      | none ↦ replacement ++ lossy lead [] bs
    ]
  ]
]

unfoldable pub from_utf8_lossy : Bytes → Bytes
unfolding lossy
from_utf8_lossy = lossy lead []
