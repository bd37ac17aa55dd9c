-- ===== src/Tests/Puts.antt =====
-- Concrete inputs for the theorems on PUT and Stream-Seq in src/actor/write.rs.
use Prim.Native.Nat.Ordering.{lt}
use rivet_durable_streams.Prelude.{
  ◌≡◌, refl, true, false, pos, Text, [], ◌∷◌, Option, none, some, inr, codes, cmp_text, Result, ok,
  err, arith,
}
use rivet_durable_streams.Protocol.Http.{response}
use rivet_durable_streams.Protocol.Offset.{zero_offset, advance_offset}
use rivet_durable_streams.Store.Tables.{Meta, Db, empty_db, insert_row, has_row}
use rivet_durable_streams.Store.Meta.{is_expired}
use rivet_durable_streams.Store.Append.Order.{IsLog}
use rivet_durable_streams.Actor.Write.{append_tx}
use rivet_durable_streams.Actor.Write.Sequence.{append_tx_seq_grows}
use rivet_durable_streams.Actor.Write.Put.{PutOptions, put_meta, put_tx, put_parsed}
use rivet_durable_streams.Actor.Write.Put.Creates.{
  first_tail, first_messages, asked_for, put_tx_creates, put_parsed_repeats,
}
use rivet_durable_streams.Tests.Data.{env, world, meta_at}
use rivet_durable_streams.Tests.Actor.{tables, answer_of}

abbrev options : PutOptions
options = record {
  forked_from = none;
  fork_offset = none;
  fork_sub_offset = none;
  content_type = some (codes "text/plain");
  ttl_seconds = some (pos 60);
  expires_at = none;
  create_closed = true;
}

put_tx_creates_example :
    (after : Db) × (put_tx (put_meta (codes "g") options (pos 5)) (1 ∷ 2 ∷ []) (pos 5) empty_db
      ≡ ok (some (first_tail (1 ∷ 2 ∷ [])), after))
    × (after.messages ≡ first_messages (1 ∷ 2 ∷ []) (pos 5))
    × (after.meta ≡ some (asked_for (codes "g") options (first_tail (1 ∷ 2 ∷ [])) (pos 5)))
    × IsLog (first_tail (1 ∷ 2 ∷ [])) after.messages
put_tx_creates_example =
    put_tx_creates options (codes "g") (1 ∷ 2 ∷ []) (pos 5) empty_db refl refl (omega arith)

-- The tables after that PUT.
abbrev put_result : Result (Option Text × Db)
put_result = put_tx (put_meta (codes "g") options (pos 5)) (1 ∷ 2 ∷ []) (pos 5) empty_db

abbrev tail_of : Result (Option Text × Db) → Option Text
tail_of (ok (tail, after)) = tail
tail_of (err e) = none

abbrev made_db : Result (Option Text × Db) → Db
made_db (ok (tail, after)) = after
made_db (err e) = empty_db

put_parsed_repeats_example :
    put_parsed env (9 ∷ []) (pos 40) (inr options) (world (made_db put_result)) ≡ (
      ok (
          response 200
            (("content-type", codes "text/plain")
              ∷ ("stream-next-offset", first_tail (1 ∷ 2 ∷ []))
              ∷ ("stream-closed", codes "true")
              ∷ [])
            []),
      world (made_db put_result),
    )
unfolding put_tx is_expired codes cmp_text advance_offset insert_row has_row
put_parsed_repeats_example =
    put_parsed_repeats env options (codes "g") (codes "text/plain") (1 ∷ 2 ∷ []) (9 ∷ []) (pos 5)
      (pos 40) empty_db (tail_of put_result) (world (made_db put_result)) refl refl refl refl refl
      refl (omega arith) refl refl

-- A stream that has seen the sequence `a`.
abbrev seen : Meta
seen = record (meta_at zero_offset) { last_seq = some (codes "a") }

abbrev seen_db : Db
seen_db = record empty_db { meta = some seen }

append_tx_seq_grows_example :
    (cmp_text (codes "a") (codes "b") ≡ lt)
    × (m : Meta) × ((tables seen_db
          (append_tx env (7 ∷ []) none (some (codes "b")) false (pos 9) seen_db)).meta
        ≡ some m)
    × (m.last_seq ≡ some (codes "b"))
unfolding append_tx codes cmp_text advance_offset insert_row has_row
append_tx_seq_grows_example =
    append_tx_seq_grows env (7 ∷ []) none (codes "a") (codes "b") (codes "a") (codes "b") false
      (pos 9) seen seen_db
      (answer_of (append_tx env (7 ∷ []) none (some (codes "b")) false (pos 9) seen_db))
      (tables seen_db (append_tx env (7 ∷ []) none (some (codes "b")) false (pos 9) seen_db)) refl
      refl refl refl refl
