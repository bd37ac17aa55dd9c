-- ===== src/Actor/Log/Seen.antt =====
-- `visible_meta` of src/actor/lifecycle.rs: the row that it gives is the one in the tables.
use rivet_durable_streams.Prelude.{
  ◌≡◌, refl, sym, ap, ◌∙◌, ◌⊎◌, inl, inr, true, ℤ, Option, none, some, Bool-cases, Option-cases,
  arith, Result, ok, err, ok_injective, is_some_and,
}
use rivet_durable_streams.Store.Tables.{Meta, Db}
use rivet_durable_streams.Store.Meta.{is_expired}
use rivet_durable_streams.Actor.Types.{Env, World, maintenance_retry_ms}
use rivet_durable_streams.Actor.Exec.{notify_change, transact, schedule, bind_result, pure}
use rivet_durable_streams.Actor.Maintenance.{schedule_maintenance_after}
use rivet_durable_streams.Actor.Lifecycle.{
  visible_meta, check_visible, Expiry, gone, kept, hidden, purged, after_expiry, expire, expire_tx,
  expire_fresh,
}

module _ (env : Env) (now : ℤ) where
  expire_fresh-kept :
      (fresh m : Meta) (db end : Db)
      → db.meta ≡ some fresh
      → expire_fresh env now fresh db ≡ ok (kept m, end)
      → end.meta ≡ some m
  unfolding expire_fresh
  expire_fresh-kept fresh m db end e h = ground arith

  expire_tx-kept :
      (m : Meta) (db end : Db) → expire_tx env now db ≡ ok (kept m, end) → end.meta ≡ some m
  unfolding expire_tx
  expire_tx-kept m db end h = elim (Option-cases db.meta) [
    | inl e ↦ let k = rw (e, expire_tx) at h in cc
    | inr (fresh, e) ↦ expire_fresh-kept fresh m db end e (rw (e, expire_tx) at h)
  ]

  -- The row in the tables, or one that is marked as deleted.
  abbrev pub Seen : Meta → World env.Rest → Type 0
  Seen m w = (m.soft_deleted ≡ true) ⊎ (w.db.meta ≡ some m)

  after_flush :
      (r : Result (Unit {0})) (w : World env.Rest) (m : Meta)
      → (bind_result r w (λ _. pure none)).0 ≡ ok (some m)
      → ⊥
  after_flush (ok u) w m e = cc
  after_flush (err x) w m e = cc

  after_expiry-Seen :
      (expiry : Expiry) (w : World env.Rest) (m : Meta)
      → ((fresh : Meta) → expiry ≡ kept fresh → w.db.meta ≡ some fresh)
      → (after_expiry env now expiry w).0 ≡ ok (some m)
      → Seen m (after_expiry env now expiry w).1
  unfolding after_expiry notify_change
  after_expiry-Seen gone w m k e = cc
  after_expiry-Seen (kept fresh) w m k e = inr (k fresh refl ∙ ok_injective _ _ e)
  after_expiry-Seen (hidden fresh) w m k e =
      inl (sym (ap (λ (o : Option Meta). is_some_and o (λ x. x.soft_deleted)) (ok_injective _ _ e)))
  after_expiry-Seen purged w m k e = absurd (after_flush _ _ m e)

  abbrev after_tx : World env.Rest → Result (Expiry × Db) → Result Expiry × World env.Rest
  after_tx w r = elim r [ ok (a, db) ↦ (ok a, record w { db = db }) | err e ↦ (err e, w) ]

  after_tx-Seen :
      (w : World env.Rest) (m : Meta) (r : Result (Expiry × Db))
      → expire_tx env now w.db ≡ r
      → (bind_result (after_tx w r).0 (after_tx w r).1 (after_expiry env now)).0 ≡ ok (some m)
      → Seen m (bind_result (after_tx w r).0 (after_tx w r).1 (after_expiry env now)).1
  after_tx-Seen w m (err x) h e = cc
  after_tx-Seen w m (ok (expiry, db)) h e =
      after_expiry-Seen expiry (record w { db = db }) m
        (λ fresh k. expire_tx-kept fresh w.db db (h ∙ ap (λ x. ok (x, db)) k)) e

  check_visible-Seen :
      (found : Option Meta) (w : World env.Rest) (m : Meta)
      → w.db.meta ≡ found
      → (check_visible env now found w).0 ≡ ok (some m)
      → Seen m (check_visible env now found w).1
  unfolding check_visible expire transact schedule_maintenance_after schedule
  check_visible-Seen none w m h e = cc
  check_visible-Seen (some meta) w m h e = elim (Bool-cases (is_expired env.platform meta now)) [
    | inr live ↦ rw live (inr (h ∙ ok_injective _ _ (rw live at e)))
    | inl old ↦ rw old (
        after_tx-Seen (schedule_maintenance_after env maintenance_retry_ms w).1 m
          (expire_tx env now w.db) refl (rw old at e))
  ]

  -- What a handler is shown is the row in the tables, or marked as deleted.
  pub visible_meta-Seen :
      (w : World env.Rest) (m : Meta)
      → (visible_meta env now w).0 ≡ ok (some m)
      → Seen m (visible_meta env now w).1
  unfolding visible_meta
  visible_meta-Seen w m e = check_visible-Seen w.db.meta w m refl e
