-- ===== src/Actor/Fork/References.antt =====
-- The references that forks hold on their source: `fork_acquire` of src/actor/fork.rs.
use rivet_durable_streams.Prelude.{
  ◌≡◌, refl, sym, ap, ◌∙◌, true, false, ℤ, Text, Option, none, some, Bool-cases, inl, inr,
  ok_injective, unwrap_or, is_empty, if◌then◌else◌, arith, Result, ok, err, ◌>>=◌ as bind, ok_or,
}
use rivet_durable_streams.Store.Tables.{Meta, Db, insert_or_ignore}
use rivet_durable_streams.Store.Meta.{is_expired}
use rivet_durable_streams.Store.Forks.{edge_key, get_fork_edge, insert_fork_edge}
use rivet_durable_streams.Actor.Types.{
  Env, World, ForkAcquire, ForkAcquireResult, acquired, not_acquired,
}
use rivet_durable_streams.Actor.Exec.{bind_result, raise, get_db, ◌>>=◌, transact}
use rivet_durable_streams.Actor.Lifecycle.Visible.{visible_meta_live}
use rivet_durable_streams.Actor.Fork.{
  acquire_checked, acquire_visible, acquire_tx, acquired_before, fork_acquire, acquire_new,
}

-- The tables with the edge, if it was not there.
abbrev with_edge : Text → Text → Db → Db
with_edge edge_id fork_offset db = record db {
  fork_edges =
      insert_or_ignore edge_key (record { edge_id = edge_id; fork_offset = fork_offset })
        db.fork_edges;
}

-- The outcome of `acquire_tx`, from the edge that is found after the insertion.
abbrev outcome : Option Text → Meta → Db → Result (ForkAcquireResult × Db)
outcome none meta db = err "fork edge was not persisted"
outcome (some recorded) meta db = ok (acquired recorded meta, db)

abbrev answer : Meta → Result (Text × Db) → Result (ForkAcquireResult × Db)
answer meta r = elim r [ ok (recorded, after) ↦ ok (acquired recorded meta, after) | err e ↦ err e ]

acquire_tx-outcome :
    (edge_id fork_offset : Text) (meta : Meta) (db : Db) (found : Option Text)
    → get_fork_edge edge_id (with_edge edge_id fork_offset db) ≡ found
    → acquire_tx edge_id fork_offset meta db ≡ outcome found meta (with_edge edge_id fork_offset db)
unfolding acquire_tx insert_fork_edge
acquire_tx-outcome edge_id fork_offset meta db none e =
    ap
      (λ o. answer meta (
        bind (ok_or o "fork edge was not persisted")
          (λ r. ok (r, with_edge edge_id fork_offset db))))
      e
acquire_tx-outcome edge_id fork_offset meta db (some r) e =
    ap
      (λ o. answer meta (
        bind (ok_or o "fork edge was not persisted")
          (λ r. ok (r, with_edge edge_id fork_offset db))))
      e

outcome-ok :
    (found : Option Text) (meta : Meta) (db after : Db) (result : ForkAcquireResult)
    → outcome found meta db ≡ ok (result, after)
    → (recorded : Text) × (found ≡ some recorded) × (result ≡ acquired recorded meta) × (after ≡ db)
outcome-ok none meta db after result h = cc
outcome-ok (some r) meta db after result h =
    let t = ok_injective _ _ h in (r, refl, sym (ap (λ p. p.0) t), sym (ap (λ p. p.1) t))

-- A reference that was acquired is recorded with the offset of the answer, and nothing else changes.
acquire_tx_records :
    (edge_id fork_offset : Text) (meta : Meta) (db after : Db) (result : ForkAcquireResult)
    → acquire_tx edge_id fork_offset meta db ≡ ok (result, after)
    → (recorded : Text) × (get_fork_edge edge_id after ≡ some recorded)
      × (result ≡ acquired recorded meta)
      × (after ≡ with_edge edge_id fork_offset db)
acquire_tx_records edge_id fork_offset meta db after result h =
    let db' = with_edge edge_id fork_offset db in
    let eq = acquire_tx-outcome edge_id fork_offset meta db (get_fork_edge edge_id db') refl in
    let (r, found, same, tables) =
      outcome-ok (get_fork_edge edge_id db') meta db' after result (sym eq ∙ h) in
    (r, ap (get_fork_edge edge_id) tables ∙ found, same, tables)

acquired_before-records :
    (edge_id recorded : Text) (meta : Meta) (db : Db)
    → get_fork_edge edge_id db ≡ some recorded
    → db.meta ≡ some meta
    → acquired_before edge_id db ≡ some (acquired recorded meta)
unfolding acquired_before
acquired_before-records edge_id recorded meta db e h = ground arith

module _ (env : Env) (action : ForkAcquire) where
  answers_before :
      (later : ℤ) (w : World env.Rest) (result : ForkAcquireResult)
      → is_empty action.edge_id ≡ false
      → acquired_before action.edge_id w.db ≡ some result
      → fork_acquire env later action w ≡ (ok result, w)
  unfolding fork_acquire acquire_new
  answers_before later w result n e =
      ap
        (λ b.
          (if b
              then raise "fork acquire requires a non-empty edge id"
              else (get_db >>= λ db.
                  acquire_new env later action (acquired_before action.edge_id db)))
            w)
        n
      ∙ ap (λ o. acquire_new env later action o w) e

  checked_ok :
      (meta : Meta) (w after : World env.Rest) (result : ForkAcquireResult)
      → acquire_checked env action meta w ≡ (ok result, after)
      → result.is_ok ≡ true
      → (acquire_tx action.edge_id (unwrap_or action.fork_offset meta.current_offset) meta w.db
          ≡ ok (result, after.db))
        × (after ≡ record w { db = after.db })
  unfolding acquire_checked not_acquired transact
  checked_ok meta w after result e good = ground arith

  recorded_after :
      (now : ℤ) (meta : Meta) (w after : World env.Rest) (result : ForkAcquireResult)
      → w.db.meta ≡ some meta
      → acquire_checked env action meta w ≡ (ok result, after)
      → result.is_ok ≡ true
      → acquired_before action.edge_id after.db ≡ some result
  recorded_after now meta w after result h e good =
      let (tx, _) = checked_ok meta w after result e good in
      let (recorded, found, same, tables) =
        acquire_tx_records action.edge_id (unwrap_or action.fork_offset meta.current_offset) meta
          w.db after.db result tx in
      acquired_before-records action.edge_id recorded meta after.db found
        (ap (λ db. db.meta) tables ∙ h)
      ∙ ap some (sym same)

  first_answer :
      (now : ℤ) (meta : Meta) (w after : World env.Rest) (result : ForkAcquireResult)
      (before : Option ForkAcquireResult)
      → w.db.meta ≡ some meta
      → is_expired env.platform meta now ≡ false
      → acquired_before action.edge_id w.db ≡ before
      → acquire_new env now action before w ≡ (ok result, after)
      → result.is_ok ≡ true
      → acquired_before action.edge_id after.db ≡ some result
  unfolding acquire_new acquire_visible
  first_answer now meta w after result (some r) h live b e good =
      ap (λ v. acquired_before action.edge_id v.db) (sym (ap (λ p. p.1) e))
      ∙ b
      ∙ ap some (ok_injective _ _ (ap (λ p. p.0) e))
  first_answer now meta w after result none h live b e good =
      recorded_after now meta w after result h
        (sym (
            ap (λ r. bind_result r.0 r.1 (acquire_visible env action))
              (visible_meta_live env now w meta h live))
          ∙ e)
        good

  -- Asking again for a reference that was given, as a fork that heard no answer does, gives the same
  -- answer and changes nothing. (The source is not expired at the first request.)
  pub fork_acquire_repeats :
      (now later : ℤ) (meta : Meta) (w after : World env.Rest) (result : ForkAcquireResult)
      → w.db.meta ≡ some meta
      → is_expired env.platform meta now ≡ false
      → fork_acquire env now action w ≡ (ok result, after)
      → result.is_ok ≡ true
      → fork_acquire env later action after ≡ (ok result, after)
  unfolding fork_acquire
  fork_acquire_repeats now later meta w after result h live e good =
      elim (Bool-cases (is_empty action.edge_id)) [
        | inl b ↦ let r = ap (λ p. p.0) (rw b at e) in cc
        | inr b ↦
            let r = rw b at e in
            answers_before later after result b (
              first_answer now meta w after result (acquired_before action.edge_id w.db) h live refl
                r good)
      ]
