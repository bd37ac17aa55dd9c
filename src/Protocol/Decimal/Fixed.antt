-- ===== src/Protocol/Decimal/Fixed.antt =====
-- Decimal texts of a fixed width.
use mathlib.Core.List.{append_assoc}
use native.Mathlib.Nat.{pow-suc}
use rivet_durable_streams.Prelude.{
  ℕ, zero, suc, ◌+◌, ◌-◌, ◌*◌, ◌/◌, ◌%◌, ◌^◌, ◌≤◌, ◌<◌, ◌≡◌, refl, sym, ap, ◌∙◌, inl, inr, false,
  Text, [], ◌∷◌, ◌++◌, none, some, ltb, if◌then◌else◌, length, length-append, replicate, arith,
  cmp_text, then_by, Bool-cases,
}
use Prim.Native.Nat.{compare}
use rivet_durable_streams.Protocol.Decimal.{decimal, pad, format_016, parse_digits, is_ascii_digit}

-- Exactly `w` digits of `n`, from the right.
unfoldable pub fixed : ℕ → ℕ → Text
fixed zero n = []
fixed (suc w) n = fixed w (n / 10) ++ (b'0' + n % 10) ∷ []

pub length-fixed : (w n : ℕ) → length (fixed w n) ≡ w
unfolding fixed
length-fixed zero n = refl
length-fixed (suc w) n =
    omega (arith, length-append (fixed w (n / 10)) ((b'0' + n % 10) ∷ []), length-fixed w (n / 10))

div-lt_pow : (w n : ℕ) → n < 10 ^ suc w → n / 10 < 10 ^ w
div-lt_pow w n h = let e = pow-suc 10 w in omega (arith, e)

pad-append : (w d : ℕ) (t : Text) → pad (suc w) (t ++ d ∷ []) ≡ pad w t ++ d ∷ []
unfolding pad
pad-append w d t =
    let e : (suc w - length (t ++ d ∷ [])) ≡ w - length t =
      omega (arith, length-append t (d ∷ [])) in
    rw e (sym (append_assoc (replicate (w - length t) b'0') t (d ∷ [])))

replicate-snoc : (w : ℕ) (d : ℕ) → replicate w d ++ d ∷ [] ≡ d ∷ replicate w d
replicate-snoc zero d = refl
replicate-snoc (suc w) d = ap (◌∷◌ d) (replicate-snoc w d)

fixed-zero : (w : ℕ) → fixed w 0 ≡ replicate w b'0'
unfolding fixed
fixed-zero zero = refl
fixed-zero (suc w) = rw (fixed-zero w) (replicate-snoc w b'0')

pub decimal_small : (f n : ℕ) → n < 10 → decimal (suc f) n ≡ (b'0' + n) ∷ []
unfolding decimal
decimal_small f n h = ground arith

pub decimal_large :
    (f n : ℕ) → 10 ≤ n → decimal (suc f) n ≡ decimal f (n / 10) ++ (b'0' + n % 10) ∷ []
unfolding decimal
decimal_large f n h = ground arith

pad_small : (w n : ℕ) → n < 10 → pad (suc w) ((b'0' + n) ∷ []) ≡ fixed (suc w) n
unfolding pad fixed
pad_small w n h =
    let q : n / 10 ≡ 0 = omega arith in
    let r : n % 10 ≡ n = omega arith in
    let e : suc w - 1 ≡ w = omega arith in rw (q, r, e, fixed-zero w)

pad_large :
    (w n : ℕ) (t : Text)
    → t ≡ fixed (suc w) (n / 10)
    → t ++ (b'0' + n % 10) ∷ [] ≡ fixed (suc (suc w)) n
unfolding fixed
pad_large w n t e = ap (λ s. s ++ (b'0' + n % 10) ∷ []) e

-- Padding writes the fixed digits.
pub pad-decimal : (w f n : ℕ) → n < f → n < 10 ^ suc w → pad (suc w) (decimal f n) ≡ fixed (suc w) n
pad-decimal w zero n h k = elim h [ ]
pad-decimal zero (suc f) n h k = rw (decimal_small f n k) (pad_small zero n k)
pad-decimal (suc w) (suc f) n h k = elim (Bool-cases (ltb n 10)) [
  | inl small ↦ rw (decimal_small f n (ground arith)) (pad_small (suc w) n (ground arith))
  | inr large ↦
      rw (decimal_large f n (ground arith), pad-append)
        (pad_large w n _ (pad-decimal w f (n / 10) (ground arith) (div-lt_pow (suc w) n k)))
]

-- `{:016}` of a number that fits is its sixteen digits.
pub format_016-eq-fixed : (n : ℕ) → n < 10 ^ 16 → format_016 n ≡ fixed 16 n
unfolding format_016
format_016-eq-fixed n h = pad-decimal 15 (suc n) n (omega arith) h

cmp_text-snoc :
    (s t : Text) (a b : ℕ)
    → length s ≡ length t
    → cmp_text (s ++ a ∷ []) (t ++ b ∷ []) ≡ then_by (cmp_text s t) (compare a b)
unfolding cmp_text
cmp_text-snoc [] [] a b h = ground arith
cmp_text-snoc [] (y ∷ ys) a b h = absurd (omega arith)
cmp_text-snoc (x ∷ xs) [] a b h = absurd (omega arith)
cmp_text-snoc (x ∷ xs) (y ∷ ys) a b h = ground (arith, cmp_text-snoc xs ys a b (omega arith))

-- Texts of one width compare as their numbers do.
pub cmp_text-fixed :
    (w a b : ℕ) → a < 10 ^ w → b < 10 ^ w → cmp_text (fixed w a) (fixed w b) ≡ compare a b
unfolding fixed
cmp_text-fixed zero a b h k =
    let p : a ≡ 0 = omega arith in let q : b ≡ 0 = omega arith in unfold cmp_text in ground arith
cmp_text-fixed (suc w) a b h k =
    rw
      (
        cmp_text-snoc (fixed w (a / 10)) (fixed w (b / 10)) (b'0' + a % 10) (b'0' + b % 10)
            (length-fixed w (a / 10) ∙ sym (length-fixed w (b / 10))),
        cmp_text-fixed w (a / 10) (b / 10) (div-lt_pow w a h) (div-lt_pow w b k),
      )
      (unfold then_by in ground arith)

pub parse_digits-append :
    (acc d : ℕ) (s : Text)
    → d < 10
    → {n : ℕ} → parse_digits acc s ≡ some n
    → parse_digits acc (s ++ (b'0' + d) ∷ []) ≡ some (n * 10 + d)
unfolding parse_digits
parse_digits-append acc d [] h e = ground arith
parse_digits-append acc d (c ∷ cs) h e = elim (Bool-cases (is_ascii_digit c)) [
  | inl y ↦ rw y (parse_digits-append (acc * 10 + (c - b'0')) d cs h (rw y at e))
  | inr n ↦ absurd (some_ne n e)
]
  where
    some_ne :
        {m : ℕ}
        → is_ascii_digit c ≡ false
        → (if is_ascii_digit c then parse_digits (acc * 10 + (c - b'0')) cs else none) ≡ some m
        → ⊥
    some_ne n e = ground arith

pub parse_digits-fixed : (w n : ℕ) → n < 10 ^ w → parse_digits 0 (fixed w n) ≡ some n
unfolding fixed
parse_digits-fixed zero n h = let e : n ≡ 0 = omega arith in unfold parse_digits in ground arith
parse_digits-fixed (suc w) n h =
    parse_digits-append 0 (n % 10) (fixed w (n / 10)) (omega arith)
      (parse_digits-fixed w (n / 10) (div-lt_pow w n h))
    ∙ ap some (omega arith)
