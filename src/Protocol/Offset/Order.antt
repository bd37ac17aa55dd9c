-- ===== src/Protocol/Offset/Order.antt =====
-- The offsets of src/protocol.rs as pairs of numbers.
use rivet_durable_streams.Prelude.{
  ℕ, zero, suc, ◌+◌, ◌≤◌, ◌<◌, ◌^◌, ◌/◌, ◌%◌, ◌≡◌, refl, sym, ap, ◌∙◌, true, false, Text, [], ◌∷◌,
  ◌++◌, some, is_empty, all, codes, cmp_text, then_by, ok, arith, length, length-append,
}
use mathlib.Core.List.{append-nil}
use Prim.Native.Nat.{compare}
use Prim.Native.Nat.Ordering.{lt}
use rivet_durable_streams.Protocol.Decimal.{is_ascii_digit, parse_digits, parse_u64, u64_max}
use rivet_durable_streams.Protocol.Decimal.Fixed.{
  fixed, length-fixed, format_016-eq-fixed, cmp_text-fixed, parse_digits-fixed,
}
use rivet_durable_streams.Protocol.Offset.{
  zero_offset, split_once, is_digits, is_concrete_offset, next_byte, advance_offset,
}

-- The bound under which an offset's two numbers keep sixteen digits.
abbrev pub limit : ℕ
limit = 10 ^ 16

pub offset_text : ℕ → ℕ → Text
offset_text read_seq byte_offset = fixed 16 read_seq ++ b'_' ∷ fixed 16 byte_offset

all_digits_snoc :
    (s : Text) (d : ℕ)
    → d < 10
    → all is_ascii_digit s ≡ true
    → all is_ascii_digit (s ++ (b'0' + d) ∷ []) ≡ true
unfolding all is_ascii_digit
all_digits_snoc [] d h e = ground arith
all_digits_snoc (c ∷ cs) d h e = ground (arith, all_digits_snoc cs d h)

pub all_digits_fixed : (w n : ℕ) → all is_ascii_digit (fixed w n) ≡ true
unfolding fixed
all_digits_fixed zero n = unfold all in refl
all_digits_fixed (suc w) n =
    all_digits_snoc (fixed w (n / 10)) (n % 10) (omega arith) (all_digits_fixed w (n / 10))

-- Digits hold no underscore, so an offset splits at the one that joins it.
pub split_once-digits :
    (s t : Text) → all is_ascii_digit s ≡ true → split_once b'_' (s ++ b'_' ∷ t) ≡ some (s, t)
unfolding split_once all is_ascii_digit
split_once-digits [] t h = refl
split_once-digits (c ∷ cs) t h = ground (arith, split_once-digits cs t)

parse_u64-digits :
    (s : Text) (n : ℕ)
    → all is_ascii_digit s ≡ true
    → is_empty s ≡ false
    → parse_digits 0 s ≡ some n
    → n ≤ u64_max
    → parse_u64 s ≡ some n
unfolding parse_u64 all is_ascii_digit
parse_u64-digits [] n h k e b = cc
parse_u64-digits (c ∷ cs) n h k e b = ground arith

is_empty_of_length : (s : Text) → 0 < length s → is_empty s ≡ false
is_empty_of_length [] h = elim h [ ]
is_empty_of_length (c ∷ cs) h = refl

pub parse_u64-fixed : (n : ℕ) → n < limit → parse_u64 (fixed 16 n) ≡ some n
parse_u64-fixed n h =
    parse_u64-digits (fixed 16 n) n (all_digits_fixed 16 n)
      (is_empty_of_length (fixed 16 n) (omega (arith, length-fixed 16 n)))
      (parse_digits-fixed 16 n h) (omega arith)

next_byte_in_limit : (b len : ℕ) → b + 5 + len < limit → next_byte b len ≡ some (b + 5 + len)
unfolding next_byte
next_byte_in_limit b len h = ground arith

-- Below the offset limit an append moves the byte number of an offset by the payload's length and
-- 5, and keeps the first number.
pub advance_offset-offset_text :
    (r b len : ℕ)
    → r < limit
    → b + 5 + len < limit
    → advance_offset (offset_text r b) len ≡ ok (offset_text r (b + 5 + len))
unfolding advance_offset offset_text
advance_offset-offset_text r b len hr hb = rw (
  split_once-digits (fixed 16 r) (fixed 16 b) (all_digits_fixed 16 r),
  parse_u64-fixed r hr,
  parse_u64-fixed b (omega arith),
  next_byte_in_limit b len hb,
  format_016-eq-fixed r hr,
  format_016-eq-fixed (b + 5 + len) hb,
)

pub cmp_text-append :
    (s t u v : Text)
    → length s ≡ length t
    → cmp_text (s ++ u) (t ++ v) ≡ then_by (cmp_text s t) (cmp_text u v)
unfolding cmp_text
cmp_text-append [] [] u v h = refl
cmp_text-append [] (y ∷ ys) u v h = absurd (omega arith)
cmp_text-append (x ∷ xs) [] u v h = absurd (omega arith)
cmp_text-append (x ∷ xs) (y ∷ ys) u v h = ground (arith, cmp_text-append xs ys u v (omega arith))

pub cmp_text-cons : (c : ℕ) (s t : Text) → cmp_text (c ∷ s) (c ∷ t) ≡ cmp_text s t
unfolding cmp_text
cmp_text-cons c s t = ground arith

-- Offsets compare as texts the way their numbers compare, the first number first.
pub cmp_text-offset_text :
    (r b q c : ℕ)
    → r < limit
    → b < limit
    → q < limit
    → c < limit
    → cmp_text (offset_text r b) (offset_text q c) ≡ then_by (compare r q) (compare b c)
unfolding offset_text
cmp_text-offset_text r b q c hr hb hq hc = rw (
  cmp_text-append (fixed 16 r) (fixed 16 q) (b'_' ∷ fixed 16 b) (b'_' ∷ fixed 16 c)
      (length-fixed 16 r ∙ sym (length-fixed 16 q)),
  cmp_text-cons b'_' (fixed 16 b) (fixed 16 c),
  cmp_text-fixed 16 r q hr hq,
  cmp_text-fixed 16 b c hb hc,
)

pub offset_text-lt :
    (r b len : ℕ)
    → r < limit
    → b + 5 + len < limit
    → cmp_text (offset_text r b) (offset_text r (b + 5 + len)) ≡ lt
offset_text-lt r b len hr hb =
    cmp_text-offset_text r b r (b + 5 + len) hr (omega arith) hr hb ∙ unfold then_by in ground arith

is_digits-fixed : (n : ℕ) → is_digits (fixed 16 n) ≡ true
unfolding is_digits
is_digits-fixed n =
    rw (all_digits_fixed 16 n, is_empty_of_length (fixed 16 n) (omega (arith, length-fixed 16 n)))

pub offset_text-is_concrete_offset : (r b : ℕ) → is_concrete_offset (offset_text r b) ≡ true
unfolding is_concrete_offset offset_text
offset_text-is_concrete_offset r b =
    rw (split_once-digits (fixed 16 r) (fixed 16 b) (all_digits_fixed 16 r), is_concrete_offset)
      (ground (arith, is_digits-fixed r, is_digits-fixed b))

pub zero_offset-eq-offset_text : zero_offset ≡ offset_text 0 0
unfolding offset_text fixed codes
zero_offset-eq-offset_text = refl

length-offset_text : (r b : ℕ) → length (offset_text r b) ≡ 33
unfolding offset_text
length-offset_text r b =
    omega
      (arith, length-append (fixed 16 r) (b'_' ∷ fixed 16 b), length-fixed 16 r, length-fixed 16 b)

-- Whatever follows the first offset's text, it stays before the offsets of data.
pub cmp_text-longer :
    (t : Text) (b : ℕ) → 0 < b → b < limit → cmp_text (offset_text 0 0 ++ t) (offset_text 0 b) ≡ lt
cmp_text-longer t b h k =
    ap (λ s. cmp_text (offset_text 0 0 ++ t) s) (sym (append-nil (offset_text 0 b)))
    ∙ cmp_text-append (offset_text 0 0) (offset_text 0 b) t []
        (length-offset_text 0 0 ∙ sym (length-offset_text 0 b))
    ∙ rw (cmp_text-offset_text 0 0 0 b (omega arith) (omega arith) (omega arith) k)
        (unfold then_by in ground arith)
