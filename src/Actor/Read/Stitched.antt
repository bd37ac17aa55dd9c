-- ===== src/Actor/Read/Stitched.antt =====
-- src/actor/read.rs: what a read of a fork gives of its source's messages and its own.
pub mod Source
pub mod Joined
use mathlib.Core.List.{append-nil, append_assoc}
use mathlib.Core.Path.{subst}
use rivet_durable_streams.Prelude.{
  ℕ, suc, ◌+◌, ◌-◌, ◌≤◌, min, ◌≡◌, refl, sym, ap, ◌∙◌, inl, inr, true, false, Text, List, [], ◌++◌,
  Option, none, some, Bool-cases, text_eq_iff, is_empty, length, Result, ok, unwrap_or,
  filter_option, select, is_none_or, text_lt, arith, ◌⊎◌,
}
use rivet_durable_streams.Store.Tables.{Meta, Message, Db}
use rivet_durable_streams.Store.Append.Order.{IsAscending}
use rivet_durable_streams.Store.Range.{
  ReadBatch, empty_batch, in_range, max_read_rows, max_read_bytes, normalized,
}
use rivet_durable_streams.Store.Range.Scan.{wanted}
use rivet_durable_streams.Store.Range.Pages.{read_messages_range-covers}
use rivet_durable_streams.Actor.Types.{Env, World, ReadRange}
use rivet_durable_streams.Actor.Exec.{Exec, pure, pause, call}
use rivet_durable_streams.Actor.Maintenance.{source_handle}
use rivet_durable_streams.Actor.Read.{
  inherits, own_batch, after_inherited, read_part, read_stitched, handle_read_range, is_full,
  total_size,
}

-- The batch has the first of these messages, and without `capped` all of them.
abbrev pub IsPart : ReadBatch → List Message → Type 0
IsPart batch rows =
    (rest : List Message) × ((batch.messages ++ rest ≡ rows) × (batch.capped ≡ false → rest ≡ []))

pub own_batch-IsPart :
    (after upto : Option Text) (limit remaining : ℕ) (messages : List Message) (db : Db)
    → IsAscending db.messages
    → limit ≤ max_read_rows
    → IsPart (own_batch after upto limit remaining messages db) (messages ++ wanted after upto db)
unfolding own_batch
own_batch-IsPart after upto limit remaining messages db h b =
    let (rest, e, f) =
      read_messages_range-covers after upto (limit - length messages) remaining (is_empty messages)
        db h (omega arith) in
    (rest, (append_assoc messages _ rest ∙ ap (◌++◌ messages) e, f.0))

-- A batch that is marked as capped promises nothing of what is behind it.
full-IsPart :
    (inherited : ReadBatch) (rows own : List Message)
    → IsPart inherited rows
    → IsPart (record { messages = inherited.messages; capped = true }) (rows ++ own)
full-IsPart inherited rows own (rest, (e, f)) = (
  rest ++ own,
  (sym (append_assoc inherited.messages rest own) ∙ ap (λ ms. ms ++ own) e, λ c. cc),
)

more-IsPart :
    (inherited : ReadBatch) (rows own : List Message) (batch : ReadBatch)
    → IsPart inherited rows
    → inherited.capped ≡ false
    → IsPart batch (inherited.messages ++ own)
    → IsPart batch (rows ++ own)
more-IsPart inherited rows own batch (rest, (e, f)) c part =
    let all : inherited.messages ≡ rows =
      sym (append-nil inherited.messages) ∙ (ap (◌++◌ inherited.messages) (sym (f c)) ∙ e) in
    rw (← all) part

not_capped :
    (inherited : ReadBatch) (limit remaining : ℕ)
    → is_full inherited limit remaining ≡ false
    → inherited.capped ≡ false
unfolding is_full
not_capped inherited limit remaining h = ground arith

-- What the source is asked for.
abbrev pub source_range : Option Text → Option Text → ℕ → ℕ → Text → ReadRange
source_range after upto limit budget fork_offset = record {
  after_offset = after;
  cap_offset = unwrap_or (filter_option (λ c. text_lt c fork_offset) upto) fork_offset;
  limit = some limit;
  byte_budget = some budget;
}

-- The fork's tables when its own messages are read, after two waits.
abbrev pub own_db : (env : Env) → World env.Rest → Db
own_db env w = env.during (w.waits + 1) (env.during w.waits w.db)

module _ (env : Env) (meta : Meta) (after upto : Option Text) (limit budget : ℕ)
    (bounded : limit ≤ max_read_rows) where
  -- What a read has of these rows and of the own messages in the tables.
  abbrev pub Stitches : List Message → Db → Result (ReadBatch ⊎ Meta) → Type 0
  Stitches rows db r =
      (batch : ReadBatch) × ((r ≡ ok (inl batch)) × IsPart batch (rows ++ wanted after upto db))

  after_inherited-Stitches :
      (inherited : ReadBatch) (rows : List Message) (current : Meta) (w : World env.Rest)
      → current.generation ≡ meta.generation
      → IsPart inherited rows
      → IsAscending (env.during w.waits w.db).messages
      → Stitches rows
          (env.during w.waits w.db)
          (after_inherited env meta after upto limit budget inherited (some current) w).0
  unfolding after_inherited pause
  after_inherited-Stitches inherited rows current w same part h =
      let t = (text_eq_iff current.generation meta.generation).1 same in
      let remaining = budget - total_size inherited.messages in
      let db = env.during w.waits w.db in
      elim (Bool-cases (is_full inherited limit remaining)) [
        | inl full ↦ (
          record { messages = inherited.messages; capped = true },
          (rw (t, full) refl, full-IsPart inherited rows (wanted after upto db) part),
        )
        | inr more ↦ (
          own_batch after upto limit remaining inherited.messages db,
          (
            rw (t, more) refl,
            more-IsPart inherited rows (wanted after upto db) _ part
                (not_capped inherited limit remaining more)
                (own_batch-IsPart after upto limit remaining inherited.messages db h bounded),
          ),
        )
      ]

  found-Stitches :
      (inherited : ReadBatch) (rows : List Message) (found : Option Meta) (current : Meta)
      (w : World env.Rest)
      → found ≡ some current
      → current.generation ≡ meta.generation
      → IsPart inherited rows
      → IsAscending (env.during w.waits w.db).messages
      → Stitches rows
          (env.during w.waits w.db)
          (after_inherited env meta after upto limit budget inherited found w).0
  found-Stitches inherited rows found current w e same part h =
      rw e (after_inherited-Stitches inherited rows current w same part h)

  pub read_part-Stitches :
      (path fork_offset : Text) (handle : env.Handle) (inherited : ReadBatch) (left : env.Rest)
      (rows : List Message) (current : Meta) (w : World env.Rest)
      → env.source_handle w.tenant_scope path ≡ ok handle
      → env.read_range handle (source_range after upto limit budget fork_offset) w.rest
        ≡ (ok inherited, left)
      → IsPart inherited rows
      → (env.during w.waits w.db).meta ≡ some current
      → current.generation ≡ meta.generation
      → IsAscending (own_db env w).messages
      → Stitches rows
          (own_db env w)
          (read_part env meta after upto limit budget (some (path, fork_offset)) w).0
  unfolding read_part source_handle call pause
  read_part-Stitches path fork_offset handle inherited left rows current w found reply part e same
        h =
      rw (found, reply)
        (found-Stitches inherited rows (env.during w.waits w.db).meta current
          (record w { rest = left; db = env.during w.waits w.db; waits = w.waits + 1 }) e same part
          h)
