-- ===== src/Actor/Fork/Points.antt =====
-- The check of a fork's offset in `fork_acquire` (src/actor/fork.rs), beside what an append makes of
-- the offset in `advance_offset` (src/protocol.rs).
use Prim.Native.Nat.Ordering.{lt}
use rivet_durable_streams.Prelude.{
  ℕ, ◌<◌, ◌≡◌, refl, ap, ◌∙◌, true, false, ℤ, Text, Bytes, ◌++◌, codes, text_lt, cmp_text,
  gt_of_lt_text, arith, err,
}
use rivet_durable_streams.Protocol.Offset.{zero_offset, is_concrete_offset, advance_offset}
use rivet_durable_streams.Protocol.Offset.Order.{
  offset_text, limit, cmp_text-longer, zero_offset-eq-offset_text,
}
use rivet_durable_streams.Store.Tables.{Meta, Db}
use rivet_durable_streams.Store.Append.{append_message}
use rivet_durable_streams.Actor.Fork.{is_fork_point}

-- An offset with 36 digits behind the underscore.
unfoldable pub overlong : Text
unfolding codes
overlong = codes "0000000000000000_000000000000000099999999999999999999"

overlong-eq : overlong ≡ offset_text 0 0 ++ codes "99999999999999999999"
unfolding overlong codes
overlong-eq = ap (λ s. s ++ codes "99999999999999999999") zero_offset-eq-offset_text

overlong-lt : (b : ℕ) → 0 < b → b < limit → cmp_text overlong (offset_text 0 b) ≡ lt
overlong-lt b h k =
    ap (λ s. cmp_text s (offset_text 0 b)) overlong-eq
    ∙ cmp_text-longer (codes "99999999999999999999") b h k

overlong-is_concrete : is_concrete_offset overlong ≡ true
unfolding overlong is_concrete_offset
overlong-is_concrete = refl

zero_offset-lt-overlong : text_lt overlong zero_offset ≡ false
unfolding overlong codes cmp_text
zero_offset-lt-overlong = refl

append_message-overlong :
    (payload : Bytes) (now : ℤ) (db : Db)
    → append_message overlong payload now db ≡ err "invalid digit found in string"
unfolding append_message overlong advance_offset
append_message-overlong payload now db = refl

-- The check of `fork_acquire` lets a client fork a stream that has data, at a tail with the first
-- number 0, at an offset to which no message can ever be appended, since its second number does
-- not fit 64 bits.
pub is_fork_point-overlong :
    (meta : Meta) (b : ℕ)
    → 0 < b
    → b < limit
    → meta.current_offset ≡ offset_text 0 b
    → (is_fork_point overlong meta ≡ true)
      × ((payload : Bytes) (now : ℤ) (db : Db)
          → append_message overlong payload now db ≡ err "invalid digit found in string")
unfolding is_fork_point
is_fork_point-overlong meta b h k e =
    let c = gt_of_lt_text overlong (offset_text 0 b) (overlong-lt b h k) in
    let r : text_lt (offset_text 0 b) overlong ≡ false = ground arith in
    (rw (e, overlong-is_concrete, zero_offset-lt-overlong, r) refl, append_message-overlong)
