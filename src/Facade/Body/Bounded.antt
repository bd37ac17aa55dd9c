-- ===== src/Facade/Body/Bounded.antt =====
-- `collect_bounded_body` of src/facade.rs against the whole body.
use rivet_durable_streams.Prelude.{
  ℕ, ◌+◌, ◌-◌, ◌^◌, ◌<◌, ◌≡◌, refl, sym, ap, ◌∙◌, true, false, Bytes, List, [], ◌∷◌, ◌++◌, Option,
  none, some, leb, length, length-append, min, if◌then◌else◌, arith, Result, ok, err, ◌>>=◌,
  Bool-cases, inl, inr,
}
use mathlib.Core.List.{append_assoc, append-nil}
use rivet_durable_streams.Facade.Body.{collect_from, collect_bounded_body}

-- All chunks in a row, or the first error.
unfoldable pub joined : List (Result Bytes) → Result Bytes
joined [] = ok []
joined (err e ∷ chunks) = err e
joined (ok chunk ∷ chunks) = joined chunks >>= λ rest. ok (chunk ++ rest)

bounded : ℕ → Bytes → Option Bytes
bounded limit bytes = if leb (length bytes) limit then some bytes else none

collect_from-dropping :
    (limit : ℕ) (collected : Bytes) (chunks : List (Result Bytes))
    → collect_from limit collected true chunks ≡ (joined chunks >>= λ rest. ok none)
unfolding collect_from joined
collect_from-dropping limit collected [] = refl
collect_from-dropping limit collected (err e ∷ chunks) = refl
collect_from-dropping limit collected (ok chunk ∷ chunks) =
    ground (arith, collect_from-dropping limit collected chunks)

bounded-over :
    (limit : ℕ) (collected chunk rest : Bytes)
    → limit < length collected + length chunk
    → bounded limit (collected ++ (chunk ++ rest)) ≡ none
unfolding bounded
bounded-over limit collected chunk rest h =
    ground (arith, length-append {0} collected (chunk ++ rest), length-append {0} chunk rest)

module _ (limit : ℕ) (collected chunk : Bytes) where
  after_fitting :
      (rest : Result Bytes)
      → (rest >>= λ r. ok (bounded limit ((collected ++ chunk) ++ r)))
        ≡ ((rest >>= λ r. ok (chunk ++ r)) >>= λ r. ok (bounded limit (collected ++ r)))
  after_fitting (ok r) = ap (λ b. ok (bounded limit b)) (append_assoc collected chunk r)
  after_fitting (err e) = refl

  after_overflow :
      (rest : Result Bytes)
      → limit < length collected + length chunk
      → (rest >>= λ r. ok none)
        ≡ ((rest >>= λ r. ok (chunk ++ r)) >>= λ r. ok (bounded limit (collected ++ r)))
  after_overflow (ok r) h = ap ok (sym (bounded-over limit collected chunk r h))
  after_overflow (err e) h = refl

module _ (limit : ℕ) (small : limit < 2 ^ 64 - 1) where
  collect_from_lem :
      (collected : Bytes) (chunks : List (Result Bytes))
      → leb (length collected) limit ≡ true
      → collect_from limit collected false chunks
        ≡ (joined chunks >>= λ rest. ok (bounded limit (collected ++ rest)))
  unfolding collect_from joined
  collect_from_lem collected [] h = rw append-nil (unfold bounded in (rw h refl))
  collect_from_lem collected (err e ∷ chunks) h = refl
  collect_from_lem collected (ok chunk ∷ chunks) h =
      elim (Bool-cases (leb (min (length collected + length chunk) (2 ^ 64 - 1)) limit)) [
        | inl fits ↦ rw fits (
            collect_from_lem (collected ++ chunk) chunks
              (ground (arith, length-append {0} collected chunk))
            ∙ after_fitting limit collected chunk (joined chunks))
        | inr over ↦ rw over (
            collect_from-dropping limit collected chunks
            ∙ after_overflow limit collected chunk (joined chunks) (ground arith))
      ]

  -- Below the largest `usize`, the body of a request is collected exactly if all its chunks arrive
  -- and together have at most `limit` bytes, and then it is their concatenation; if all arrive but
  -- have more bytes, the answer is none; if a chunk fails, it is the error of the first that does,
  -- even after the limit was passed.
  pub collect_bounded_body_lem :
      (chunks : List (Result Bytes))
      → collect_bounded_body chunks limit
        ≡ (joined chunks >>= λ b. ok (if leb (length b) limit then some b else none))
  unfolding collect_bounded_body bounded
  collect_bounded_body_lem chunks = collect_from_lem [] chunks (ground arith)
