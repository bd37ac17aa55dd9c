-- ===== src/Protocol/Integer/Canonical.antt =====
-- The integers of headers and their decimal texts.
use mathlib.Core.List.{append_assoc, append-nil}
use rivet_durable_streams.Prelude.{
  ℕ, zero, suc, ◌+◌, ◌-◌, ◌*◌, ◌/◌, ◌%◌, ◌≤◌, ◌<◌, ◌≡◌, ◌≢◌, refl, sym, ap, ◌∙◌, ◌↔◌, inl, inr,
  true, Text, [], ◌∷◌, ◌++◌, some, ltb, all, i64_max, arith, Bool-cases, all-append,
}
use rivet_durable_streams.Protocol.Decimal.{
  decimal, to_text, is_ascii_digit, parse_unsigned, parse_digits,
}
use rivet_durable_streams.Protocol.Decimal.Fixed.{decimal_small, decimal_large, parse_digits-append}
use rivet_durable_streams.Protocol.Integer.{
  is_canonical, parse_non_negative_safe_integer, parse_ttl, max_safe_integer, max_ttl_seconds,
}

decimal_fuel : (f g n : ℕ) → n < f → n < g → decimal f n ≡ decimal g n
unfolding decimal
decimal_fuel zero g n h k = elim h [ ]
decimal_fuel (suc f) zero n h k = elim k [ ]
decimal_fuel (suc f) (suc g) n h k = ground (arith, decimal_fuel f g (n / 10))

to_text_small : (n : ℕ) → n < 10 → to_text n ≡ (b'0' + n) ∷ []
unfolding to_text
to_text_small n h = ground arith

to_text_large : (n : ℕ) → 10 ≤ n → to_text n ≡ to_text (n / 10) ++ (b'0' + n % 10) ∷ []
unfolding to_text
to_text_large n h = ground (arith, decimal_fuel n (suc (n / 10)) (n / 10))

digit_low : (c : ℕ) → is_ascii_digit c ≡ true → 48 ≤ c
unfolding is_ascii_digit
digit_low c y = ground arith

digit_high : (c : ℕ) → is_ascii_digit c ≡ true → c ≤ 57
unfolding is_ascii_digit
digit_high c y = ground arith

to_text_next :
    (acc c : ℕ)
    → 0 < acc
    → is_ascii_digit c ≡ true
    → to_text (acc * 10 + (c - b'0')) ≡ to_text acc ++ c ∷ []
to_text_next acc c p y =
    let low = digit_low c y in
    let high = digit_high c y in
    let q : (acc * 10 + (c - b'0')) / 10 ≡ acc = omega arith in
    let r : b'0' + (acc * 10 + (c - b'0')) % 10 ≡ c = omega arith in
    to_text_large (acc * 10 + (c - b'0')) (omega arith) ∙ λ i. to_text (q i) ++ r i ∷ []

parse_digits_cons :
    (acc c n : ℕ) (cs : Text)
    → parse_digits acc (c ∷ cs) ≡ some n
    → (is_ascii_digit c ≡ true) × (parse_digits (acc * 10 + (c - b'0')) cs ≡ some n)
unfolding parse_digits
parse_digits_cons acc c n cs h = ground arith

-- Reading further digits appends them.
to_text-parse_digits :
    (acc n : ℕ) (cs : Text) → 0 < acc → parse_digits acc cs ≡ some n → to_text n ≡ to_text acc ++ cs
to_text-parse_digits acc n [] p h =
    let e : acc ≡ n = unfold parse_digits in ground arith in rw append-nil (ap to_text (sym e))
to_text-parse_digits acc n (c ∷ cs) p h =
    let (y, k) = parse_digits_cons acc c n cs h in
    let low = digit_low c y in
    to_text-parse_digits (acc * 10 + (c - b'0')) n cs (omega arith) k
    ∙ ap (λ t. t ++ cs) (to_text_next acc c p y)
    ∙ append_assoc (to_text acc) (c ∷ []) cs

parse_first :
    (c n : ℕ) (cs : Text) → c ≢ b'0' → parse_digits 0 (c ∷ cs) ≡ some n → c ∷ cs ≡ to_text n
parse_first c n cs z h =
    let (y, k) = parse_digits_cons 0 c n cs h in
    let low = digit_low c y in
    let high = digit_high c y in
    let e : 0 * 10 + (c - b'0') ≡ c - b'0' = omega arith in
    let pos : 0 < c - b'0' = omega arith in
    let d : b'0' + (c - b'0') ≡ c = omega arith in
    sym (
      to_text-parse_digits (0 * 10 + (c - b'0')) n cs (omega arith) k
      ∙ ap (λ m. to_text m ++ cs) e
      ∙ ap (λ t. t ++ cs) (to_text_small (c - b'0') (omega arith))
      ∙ ap (λ m. m ∷ cs) d)

parse_unsigned_digits :
    (max c n : ℕ) (cs : Text)
    → is_ascii_digit c ≡ true
    → parse_unsigned max (c ∷ cs) ≡ some n
    → (parse_digits 0 (c ∷ cs) ≡ some n) × (n ≤ max)
unfolding parse_unsigned is_ascii_digit
parse_unsigned_digits max c n cs y h = ground arith

canonical_first : (c d : ℕ) (cs : Text) → is_canonical (c ∷ d ∷ cs) ≡ true → c ≢ b'0'
unfolding is_canonical
canonical_first c d cs h = ground arith

canonical_digit : (c : ℕ) (cs : Text) → is_canonical (c ∷ cs) ≡ true → is_ascii_digit c ≡ true
unfolding is_canonical
canonical_digit c cs h = ground arith

single_digit : (c n : ℕ) → parse_digits 0 (c ∷ []) ≡ some n → c ∷ [] ≡ to_text n
single_digit c n h =
    let (y, k) = parse_digits_cons 0 c n [] h in
    let low = digit_low c y in
    let high = digit_high c y in
    let e : 0 * 10 + (c - b'0') ≡ n = unfold parse_digits in ground arith in
    let d : b'0' + n ≡ c = omega arith in sym (to_text_small n (omega arith) ∙ ap (λ m. m ∷ []) d)

-- A canonical text that is read is the decimal text of its number.
parse-to_text :
    (max n : ℕ) (value : Text)
    → is_canonical value ≡ true
    → parse_unsigned max value ≡ some n
    → (value ≡ to_text n) × (n ≤ max)
parse-to_text max n [] h e = unfold is_canonical in cc
parse-to_text max n (c ∷ []) h e =
    let (k, b) = parse_unsigned_digits max c n [] (canonical_digit c [] h) e in
    (single_digit c n k, b)
parse-to_text max n (c ∷ d ∷ cs) h e =
    let (k, b) = parse_unsigned_digits max c n (d ∷ cs) (canonical_digit c (d ∷ cs) h) e in
    (parse_first c n (d ∷ cs) (canonical_first c d cs h) k, b)

parse_small : (n : ℕ) → n < 10 → parse_digits 0 ((b'0' + n) ∷ []) ≡ some n
unfolding parse_digits is_ascii_digit
parse_small n h = ground arith

parse_digits-decimal : (f n : ℕ) → n < f → parse_digits 0 (decimal f n) ≡ some n
parse_digits-decimal zero n h = elim h [ ]
parse_digits-decimal (suc f) n h = elim (Bool-cases (ltb n 10)) [
  | inl small ↦ rw (decimal_small f n (ground arith)) (parse_small n (ground arith))
  | inr large ↦ rw (decimal_large f n (ground arith)) (
      parse_digits-append 0 (n % 10) (decimal f (n / 10)) (omega arith)
        (parse_digits-decimal f (n / 10) (ground arith))
      ∙ ap some (omega arith))
]

digit_of : (d : ℕ) → d < 10 → all is_ascii_digit ((b'0' + d) ∷ []) ≡ true
unfolding all is_ascii_digit
digit_of d h = ground arith

all_digits-decimal : (f n : ℕ) → all is_ascii_digit (decimal f n) ≡ true
all_digits-decimal zero n = unfold decimal all in refl
all_digits-decimal (suc f) n = elim (Bool-cases (ltb n 10)) [
  | inl small ↦ rw (decimal_small f n (ground arith)) (digit_of n (ground arith))
  | inr large ↦
      rw (decimal_large f n (ground arith), all-append, all_digits-decimal f (n / 10))
        (digit_of (n % 10) (omega arith))
]

-- A text that begins with another digit than zero.
abbrev Leads : Text → Type 0
Leads [] = ⊥
Leads (c ∷ cs) = c ≢ b'0'

Leads-append : (s t : Text) → Leads s → Leads (s ++ t)
Leads-append [] t h = absurd h
Leads-append (c ∷ cs) t h = h

Leads-decimal : (f n : ℕ) → 0 < n → n < f → Leads (decimal f n)
Leads-decimal zero n p h = elim h [ ]
Leads-decimal (suc f) n p h = elim (Bool-cases (ltb n 10)) [
  | inl small ↦ rw (decimal_small f n (ground arith)) (λ e. absurd (omega arith))
  | inr large ↦
      rw (decimal_large f n (ground arith)) (
        Leads-append (decimal f (n / 10)) _
          (Leads-decimal f (n / 10) (ground arith) (ground arith)))
]

canonical_of : (t : Text) → Leads t → all is_ascii_digit t ≡ true → is_canonical t ≡ true
unfolding is_canonical
canonical_of [] h a = absurd h
canonical_of (c ∷ cs) h a = ground arith

is_canonical-to_text : (n : ℕ) → is_canonical (to_text n) ≡ true
unfolding to_text
is_canonical-to_text zero = unfold is_canonical in refl
is_canonical-to_text (suc n) =
    canonical_of (decimal (suc (suc n)) (suc n))
      (Leads-decimal (suc (suc n)) (suc n) (omega arith) (omega arith))
      (all_digits-decimal (suc (suc n)) (suc n))

parse_unsigned_of :
    (max n : ℕ) (t : Text)
    → is_canonical t ≡ true
    → parse_digits 0 t ≡ some n
    → n ≤ max
    → parse_unsigned max t ≡ some n
unfolding parse_unsigned is_canonical is_ascii_digit
parse_unsigned_of max n [] h e b = cc
parse_unsigned_of max n (c ∷ cs) h e b = ground arith

-- The headers' integers are read from their canonical decimal texts up to 2⁵³ - 1, and from no
-- other text.
pub parse_non_negative_safe_integer_iff :
    (value : Text) (n : ℕ)
    → (parse_non_negative_safe_integer value ≡ some n)
      ↔ ((value ≡ to_text n) × (n ≤ max_safe_integer))
unfolding parse_non_negative_safe_integer
parse_non_negative_safe_integer_iff value n = (read, written)
  where
    read :
        parse_non_negative_safe_integer value ≡ some n
        → (value ≡ to_text n) × (n ≤ max_safe_integer)
    read h = ground (arith, parse-to_text i64_max n value)

    written :
        (value ≡ to_text n) × (n ≤ max_safe_integer)
        → parse_non_negative_safe_integer value ≡ some n
    written (e, b) =
        rw
          (
            e,
            is_canonical-to_text n,
            parse_unsigned_of i64_max n (to_text n) (is_canonical-to_text n)
                (unfold to_text in parse_digits-decimal (suc n) n (omega arith)) (omega arith),
          )
          (ground arith)

-- The same of `Stream-TTL`, up to a hundred years.
pub parse_ttl_iff :
    (value : Text) (n : ℕ)
    → (parse_ttl value ≡ some n) ↔ ((value ≡ to_text n) × (n ≤ max_ttl_seconds))
unfolding parse_ttl
parse_ttl_iff value n = (read, written)
  where
    read : parse_ttl value ≡ some n → (value ≡ to_text n) × (n ≤ max_ttl_seconds)
    read h = ground (arith, parse-to_text i64_max n value)

    written : (value ≡ to_text n) × (n ≤ max_ttl_seconds) → parse_ttl value ≡ some n
    written (e, b) =
        rw
          (
            e,
            is_canonical-to_text n,
            parse_unsigned_of i64_max n (to_text n) (is_canonical-to_text n)
                (unfold to_text in parse_digits-decimal (suc n) n (omega arith)) (omega arith),
          )
          (ground arith)
