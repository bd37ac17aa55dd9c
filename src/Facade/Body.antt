-- ===== src/Facade/Body.antt =====
-- src/facade.rs: `collect_bounded_body`.
pub mod Bounded
use rivet_durable_streams.Prelude.{
  ℕ, ◌+◌, ◌-◌, ◌^◌, Bool, true, false, Bytes, List, [], ◌∷◌, ◌++◌, Option, none, some, leb, length,
  min, if◌then◌else◌, Result, ok, err,
}

abbrev usize_max : ℕ
usize_max = 2 ^ 64 - 1

-- The loop over the chunks: what is collected, and whether a chunk did not fit. A chunk behind
-- that one is read and dropped.
unfoldable pub collect_from : ℕ → Bytes → Bool → List (Result Bytes) → Result (Option Bytes)
collect_from limit collected true [] = ok none
collect_from limit collected false [] = ok (some collected)
collect_from limit collected too_large (err e ∷ chunks) = err e
collect_from limit collected true (ok chunk ∷ chunks) = collect_from limit collected true chunks
collect_from limit collected false (ok chunk ∷ chunks) =
    let fits = leb (min (length collected + length chunk) usize_max) limit in
    collect_from limit (if fits then collected ++ chunk else collected)
      (if fits then false else true) chunks

-- Of an `http_body` stream, `limit` being a `usize`.
unfoldable pub collect_bounded_body : List (Result Bytes) → ℕ → Result (Option Bytes)
unfolding collect_from
collect_bounded_body body limit = collect_from limit [] false body
