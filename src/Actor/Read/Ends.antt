-- ===== src/Actor/Read/Ends.antt =====
-- The loop of `read_stitched` in src/actor/read.rs: when it ends.
use rivet_durable_streams.Prelude.{
  ℕ, suc, ◌≡◌, refl, sym, ap, ◌∙◌, ◌⊎◌, inl, inr, Text, Option, none, some, min, Bool-cases,
  text_eq_iff, ◌-◌, Result, ok, err, unwrap_or,
}
use rivet_durable_streams.Store.Tables.{Meta, Db}
use rivet_durable_streams.Store.Range.{ReadBatch, max_read_rows, max_read_bytes, normalized}
use rivet_durable_streams.Actor.Types.{Env, World, ReadRange}
use rivet_durable_streams.Actor.Exec.{
  Exec, bind_result, pure, lift, get_db, pause, call, ◌>>=◌, ◌>>◌,
}
use rivet_durable_streams.Actor.Maintenance.{source_handle}
use rivet_durable_streams.Actor.Read.{
  inherits, after_inherited, read_part, read_stitched, is_full, total_size,
}

-- The tables hold the stream with this generation.
abbrev pub HasGeneration : Text → Db → Type 0
HasGeneration generation db = (m : Meta) × (db.meta ≡ some m) × (m.generation ≡ generation)

done_is_not_again :
    (batch : ReadBatch) (current : Meta)
    → ◌≡◌ {A = Result (ReadBatch ⊎ Meta)} (ok (inl batch)) (ok (inr current))
    → ⊥
done_is_not_again batch current e = cc

module _ (env : Env) (generation : Text)
    (keeps : (n : ℕ) (db : Db)
      → HasGeneration generation db
      → HasGeneration generation (env.during n db)) where
  -- An attempt that asks for another.
  abbrev pub AsksAgain : Result (ReadBatch ⊎ Meta) → Type 0
  AsksAgain r = (current : Meta) × (r ≡ ok (inr current))

  module _ (meta : Meta) (after upto : Option Text) (limit budget : ℕ)
      (same : meta.generation ≡ generation) where
    after_inherited_ends :
        (inherited : ReadBatch) (found : Option Meta) (m : Meta) (w : World env.Rest)
        → found ≡ some m
        → m.generation ≡ generation
        → ¬ AsksAgain (after_inherited env meta after upto limit budget inherited found w).0
    unfolding after_inherited pause
    after_inherited_ends inherited none m w e g = λ again. cc
    after_inherited_ends inherited (some current) m w e g =
        λ (again : AsksAgain
            (after_inherited env meta after upto limit budget inherited (some current) w).0).
          let alike : current.generation ≡ meta.generation =
            ap (λ (o : Option Meta). (unwrap_or o current).generation) e ∙ g ∙ sym same in
          let t = (text_eq_iff current.generation meta.generation).1 alike in
          elim (Bool-cases (is_full inherited limit (budget - total_size inherited.messages))) [
            | inl full ↦ done_is_not_again _ _ (rw (t, full) at (again.1))
            | inr more ↦ done_is_not_again _ _ (rw (t, more) at (again.1))
          ]

    -- From the source's answer on.
    answered_ends :
        (reply : Result ReadBatch) (w : World env.Rest)
        → HasGeneration generation w.db
        → ¬ AsksAgain
            (bind_result {A = ReadBatch} reply w (λ inherited.
              pause env.during
              >> (get_db >>= λ db.
                  after_inherited env meta after upto limit budget inherited db.meta))).0
    unfolding pause
    answered_ends (err e) w held = λ again. cc
    answered_ends (ok inherited) w held =
        let (m, e, g) = keeps w.waits w.db held in
        after_inherited_ends inherited (env.during w.waits w.db).meta m _ e g

    handled_ends :
        (handle : Result env.Handle) (range : ReadRange) (w : World env.Rest)
        → HasGeneration generation w.db
        → ¬ AsksAgain
            (bind_result {A = env.Handle} handle w (λ h. call (env.read_range h range) >>= λ reply.
              lift reply >>= λ inherited.
              pause env.during
              >> (get_db >>= λ db.
                  after_inherited env meta after upto limit budget inherited db.meta))).0
    unfolding call
    handled_ends (err e) range w held = λ again. cc
    handled_ends (ok h) range w held = answered_ends (env.read_range h range w.rest).0 _ held

    read_part_ends :
        (from : Option (Text × Text)) (w : World env.Rest)
        → HasGeneration generation w.db
        → ¬ AsksAgain (read_part env meta after upto limit budget from w).0
    unfolding read_part source_handle
    read_part_ends none w held = λ again. done_is_not_again _ _ again.1
    read_part_ends (some (path, offset)) w held =
        handled_ends (env.source_handle w.tenant_scope path) _ w held

    -- What follows an attempt, on fuel.
    abbrev and_then : ℕ → ReadBatch ⊎ Meta → Exec env.Rest ReadBatch
    and_then fuel part = elim part [
      | inl batch ↦ pure batch
      | inr current ↦ read_stitched env fuel current after upto limit budget
    ]

    settled_ends :
        (fuel : ℕ) (r : Result (ReadBatch ⊎ Meta)) (w : World env.Rest)
        → ¬ AsksAgain r
        → bind_result r w (and_then fuel) ≡ bind_result r w (and_then 0)
    settled_ends fuel (err e) w h = refl
    settled_ends fuel (ok (inl batch)) w h = refl
    settled_ends fuel (ok (inr current)) w h = absurd (h (current, refl))

  -- Where the tables hold the stream of the given row, and what other callbacks do while a read waits
  -- keeps its generation (they may write to the stream, but do not replace it), the loop of
  -- `read_stitched` ends in its first turn, whatever the source answers: the attempt does not ask for
  -- another, and any fuel but none gives the same result and the same world as one unit.
  pub read_stitched_ends :
      (meta : Meta) (after upto : Option Text) (limit budget fuel : ℕ) (w : World env.Rest)
      → meta.generation ≡ generation
      → HasGeneration generation w.db
      → (¬ AsksAgain
          (read_part env meta
            (normalized after)
            upto
            (min limit max_read_rows)
            (min budget max_read_bytes)
            (inherits meta (normalized after))
            w).0)
        × (read_stitched env (suc fuel) meta after upto limit budget w
            ≡ read_stitched env 1 meta after upto limit budget w)
  unfolding read_stitched
  read_stitched_ends meta after upto limit budget fuel w same held =
      let ends =
        read_part_ends meta (normalized after) upto (min limit max_read_rows)
          (min budget max_read_bytes) same (inherits meta (normalized after)) w held in
      (ends, settled_ends meta after upto limit budget same fuel _ _ ends)
