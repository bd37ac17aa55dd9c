-- ===== src/Actor/Read/Stitched/Joined.antt =====
-- src/actor/read.rs: a read of a fork, and that of its source which it asks for.
use mathlib.Core.Path.{subst}
use rivet_durable_streams.Prelude.{
  ℕ, suc, min, ◌≡◌, refl, ap, ◌∙◌, Text, List, ◌++◌, Option, none, some, ok, arith,
}
use rivet_durable_streams.Store.Tables.{Meta, Message, Db}
use rivet_durable_streams.Store.Append.Order.{IsAscending}
use rivet_durable_streams.Store.Range.{ReadBatch, max_read_rows, max_read_bytes, normalized}
use rivet_durable_streams.Store.Range.Scan.{wanted}
use rivet_durable_streams.Actor.Types.{Env, World, ReadRange}
use rivet_durable_streams.Actor.Read.{inherits, read_part, read_stitched, handle_read_range}
use rivet_durable_streams.Actor.Read.Stitched.{
  IsPart, source_range, own_db, Stitches, read_part-Stitches,
}
use rivet_durable_streams.Actor.Read.Stitched.Source.{
  Reads, own-Reads, wanted-normalized, handle_read_range-Reads,
}

-- What a fork's read asks of the source.
abbrev pub fork_range : Option Text → Option Text → ℕ → ℕ → Text → ReadRange
fork_range after upto limit budget =
    source_range (normalized after) upto (min limit max_read_rows) (min budget max_read_bytes)

-- The fork's read after its one attempt.
stitched :
    (env : Env) (fuel : ℕ) (meta : Meta) (after upto : Option Text) (limit budget : ℕ)
    (from : Text × Text) (rows : List Message) (db : Db) (w : World env.Rest)
    → inherits meta (normalized after) ≡ some from
    → Stitches env meta
        (normalized after)
        upto
        (min limit max_read_rows)
        (min budget max_read_bytes)
        (omega arith)
        rows
        db
        (read_part env meta
          (normalized after)
          upto
          (min limit max_read_rows)
          (min budget max_read_bytes)
          (some from)
          w).0
    → (batch : ReadBatch) × (((read_stitched env (suc fuel) meta after upto limit budget w).0
          ≡ ok batch)
        × IsPart batch (rows ++ wanted after upto db))
unfolding read_stitched
stitched env fuel meta after upto limit budget from rows db w e (batch, (done, part)) = (
  batch,
  (
    rw (e, done) refl,
    subst (λ own. IsPart batch (rows ++ own)) (wanted-normalized after upto db) part,
  ),
)

-- The messages wanted of a stream and of the streams it is a fork of, the first of them first. A
-- fork that is read from before the fork asks its source, whose actor answers by its own read; what
-- other callbacks do to the fork meanwhile does not replace the stream. The tables are those at the
-- time when they are read.
pub data Lineage
    : (env : Env)
      → World env.Rest
      → Meta
      → Option Text
      → Option Text
      → ℕ
      → ℕ
      → List Message
      → Type 1 where
  alone :
      {env : Env} {w : World env.Rest} {meta : Meta} {after upto : Option Text} {limit budget : ℕ}
      {rows : List Message}
      → inherits meta (normalized after) ≡ none
      → IsAscending w.db.messages
      → rows ≡ wanted after upto w.db
      → Lineage env w meta after upto limit budget rows
  joined :
      {env : Env} {w : World env.Rest} {meta : Meta} {after upto : Option Text} {limit budget : ℕ}
      {rows : List Message} (source : Env) (there : World source.Rest) (source_meta current : Meta)
      (path fork_offset : Text) (handle : env.Handle) (left : env.Rest) (inherited : List Message)
      (fuel : ℕ)
      → inherits meta (normalized after) ≡ some (path, fork_offset)
      → env.source_handle w.tenant_scope path ≡ ok handle
      → env.read_range handle (fork_range after upto limit budget fork_offset) w.rest ≡ (
        (handle_read_range source
            (suc fuel)
            (fork_range after upto limit budget fork_offset)
            there).0,
        left,
      )
      → there.db.meta ≡ some source_meta
      → (env.during w.waits w.db).meta ≡ some current
      → current.generation ≡ meta.generation
      → IsAscending (own_db env w).messages
      → rows ≡ inherited ++ wanted after upto (own_db env w)
      → Lineage source there source_meta
          (normalized after)
          (some (fork_range after upto limit budget fork_offset).cap_offset)
          (min limit max_read_rows)
          (min budget max_read_bytes)
          inherited
      → Lineage env w meta after upto limit budget rows

-- However deep a stream is a fork of forks: its read succeeds on any fuel but none, and the batch's
-- messages come first among those that are wanted, the sources' and then its own. Without `capped`
-- they are all of them.
pub read_stitched-Reads :
    (env : Env) (fuel : ℕ) (w : World env.Rest) (meta : Meta) (after upto : Option Text)
    (limit budget : ℕ) (rows : List Message)
    → Lineage env w meta after upto limit budget rows
    → Reads rows (read_stitched env (suc fuel) meta after upto limit budget w).0
read_stitched-Reads env fuel w meta after upto limit budget rows (alone here ordered e) =
    rw e (own-Reads env fuel meta w after upto limit budget here ordered)
read_stitched-Reads env fuel w meta after upto limit budget rows
      (joined source there source_meta current path fork_offset handle left inherited source_fuel
        from found reply held now_held same ordered e lineage) =
    let action = fork_range after upto limit budget fork_offset in
    let (batch, (answer, part)) =
      handle_read_range-Reads source source_fuel source_meta there action inherited held (
        read_stitched-Reads source source_fuel there source_meta action.after_offset
          (some action.cap_offset) (min limit max_read_rows) (min budget max_read_bytes) inherited
          lineage) in
    rw e (
      stitched env fuel meta after upto limit budget (path, fork_offset) inherited (own_db env w) w
        from
        (read_part-Stitches env meta (normalized after) upto (min limit max_read_rows)
          (min budget max_read_bytes) (omega arith) path fork_offset handle batch left inherited
          current w found (reply ∙ ap (λ r. (r, left)) answer) part now_held same ordered))
