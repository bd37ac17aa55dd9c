-- ===== src/Actor/Read/Stitched/Source.antt =====
-- src/actor/read.rs: what the source of a fork answers, where it is no fork itself.
use mathlib.Core.Path.{subst}
use rivet_durable_streams.Prelude.{
  ℕ, suc, min, ◌≡◌, refl, sym, ap, Text, List, [], Option, none, some, Result, ok, unwrap_or,
  select, arith,
}
use rivet_durable_streams.Store.Tables.{Meta, Message, Db}
use rivet_durable_streams.Store.Append.Order.{IsAscending}
use rivet_durable_streams.Store.Range.{
  ReadBatch, empty_batch, in_range, max_read_rows, max_read_bytes, normalized,
}
use rivet_durable_streams.Store.Range.Scan.{wanted}
use rivet_durable_streams.Actor.Types.{Env, World, ReadRange}
use rivet_durable_streams.Actor.Exec.{Exec, pure}
use rivet_durable_streams.Actor.Read.{
  inherits, own_batch, read_part, read_stitched, handle_read_range,
}
use rivet_durable_streams.Actor.Read.Stitched.{IsPart, own_batch-IsPart}

normalized_twice : (after : Option Text) → normalized (normalized after) ≡ normalized after
unfolding normalized
normalized_twice none = refl
normalized_twice (some offset) = ground arith

pub wanted-normalized :
    (after upto : Option Text) (db : Db) → wanted (normalized after) upto db ≡ wanted after upto db
wanted-normalized after upto db =
    ap (λ o. select (in_range (unwrap_or o []) upto) db.messages) (normalized_twice after)

-- A result that is a part of these messages.
abbrev pub Reads : List Message → Result ReadBatch → Type 0
Reads rows r = (batch : ReadBatch) × ((r ≡ ok batch) × IsPart batch rows)

module _ (env : Env) (fuel : ℕ) (meta : Meta) (w : World env.Rest) where
  -- A read that does not begin before a fork is of the own messages.
  pub own-Reads :
      (after upto : Option Text) (limit budget : ℕ)
      → inherits meta (normalized after) ≡ none
      → IsAscending w.db.messages
      → Reads
          (wanted after upto w.db)
          (read_stitched env (suc fuel) meta after upto limit budget w).0
  unfolding read_stitched read_part
  own-Reads after upto limit budget alone ordered =
      let upto_limit = min limit max_read_rows in
      let size = min budget max_read_bytes in
      let batch = own_batch (normalized after) upto upto_limit size [] w.db in
      let part =
        own_batch-IsPart (normalized after) upto upto_limit size [] w.db ordered (omega arith) in
      (batch, ((rw alone refl), subst (IsPart batch) (wanted-normalized after upto w.db) part))

  abbrev found_reads : ReadRange → Option Meta → Result ReadBatch × World env.Rest
  found_reads action found =
      (elim found as (λ _. Exec env.Rest ReadBatch) [
        | none ↦ pure empty_batch
        | some meta ↦
            read_stitched env (suc fuel) meta action.after_offset (some action.cap_offset)
              (unwrap_or action.limit max_read_rows) (unwrap_or action.byte_budget max_read_bytes)
      ])
        w

  -- The action reads the stream that is there.
  pub handle_read_range-Reads :
      (action : ReadRange) (rows : List Message)
      → w.db.meta ≡ some meta
      → Reads rows
          (read_stitched env
            (suc fuel)
            meta
            action.after_offset
            (some action.cap_offset)
            (unwrap_or action.limit max_read_rows)
            (unwrap_or action.byte_budget max_read_bytes)
            w).0
      → Reads rows (handle_read_range env (suc fuel) action w).0
  unfolding handle_read_range
  handle_read_range-Reads action rows found =
      subst (Reads rows) (ap (λ o. (found_reads action o).0) (sym found))
