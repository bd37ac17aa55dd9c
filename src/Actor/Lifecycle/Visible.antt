-- ===== src/Actor/Lifecycle/Visible.antt =====
-- `visible_meta` of src/actor/lifecycle.rs: which streams a request sees.
use rivet_durable_streams.Prelude.{
  ◌≡◌, refl, sym, ap, ◌∙◌, true, false, ℤ, Option, none, some, ◌⊎◌, inl, inr, Bool-cases, arith,
  Result, ok, err,
}
use rivet_durable_streams.Store.Tables.{Meta, Db}
use rivet_durable_streams.Store.Meta.{is_expired}
use rivet_durable_streams.Actor.Types.{Env, World, maintenance_retry_ms}
use rivet_durable_streams.Actor.Exec.{notify_change, transact, schedule, bind_result, pure}
use rivet_durable_streams.Actor.Maintenance.{flush_gc_releases, schedule_maintenance_after}
use rivet_durable_streams.Actor.Lifecycle.{
  visible_meta, check_visible, Expiry, gone, kept, hidden, purged, after_expiry, expire, expire_tx,
  expire_fresh,
}

module _ (env : Env) where
  -- A stream that is not expired is seen as it is.
  pub visible_meta_live :
      (now : ℤ) (w : World env.Rest) (meta : Meta)
      → w.db.meta ≡ some meta
      → is_expired env.platform meta now ≡ false
      → visible_meta env now w ≡ (ok (some meta), w)
  unfolding visible_meta check_visible
  visible_meta_live now w meta h live = ap (λ m. check_visible env now m w) h ∙ (rw live refl)

  some_injective : {a b : Meta} → ok (some a) ≡ ok (some b) → a ≡ b
  some_injective e = cc

  never_some :
      (r : Result (Unit {0})) (w : World env.Rest) (m : Meta) (after : World env.Rest)
      → bind_result r w (λ _. pure none) ≡ (ok (some m), after)
      → ⊥
  never_some (ok u) w m after e = let r = ap (λ p. p.0) e in cc
  never_some (err x) w m after e = let r = ap (λ p. p.0) e in cc

  notified : World env.Rest → World env.Rest
  notified w = (notify_change w).1

  after_expiry_lem :
      (now : ℤ) (m : Meta) (w after : World env.Rest) (expiry : Expiry)
      → after_expiry env now expiry w ≡ (ok (some m), after)
      → (expiry ≡ kept m) ⊎ (m.soft_deleted ≡ true)
  unfolding after_expiry notify_change notified
  after_expiry_lem now m w after gone e = let r = ap (λ p. p.0) e in cc
  after_expiry_lem now m w after (kept fresh) e = inl (ap kept (some_injective (ap (λ p. p.0) e)))
  after_expiry_lem now m w after (hidden fresh) e =
      inr (ap (λ x. x.soft_deleted) (some_injective (sym (ap (λ p. p.0) e))))
  after_expiry_lem now m w after purged e = absurd (
      never_some (flush_gc_releases env (notified w)).0 (flush_gc_releases env (notified w)).1 m
        after e)

  expire_tx-kept :
      (now : ℤ) (m : Meta) (db after : Db)
      → expire_tx env now db ≡ ok (kept m, after)
      → is_expired env.platform m now ≡ false
  unfolding expire_tx expire_fresh
  expire_tx-kept now m db after e = ground arith

  abbrev settled : World env.Rest → Result (Expiry × Db) → Result Expiry × World env.Rest
  settled w r = elim r [ ok (a, db) ↦ (ok a, record w { db = db }) | err e ↦ (err e, w) ]

  settled_lem :
      (now : ℤ) (m : Meta) (w after : World env.Rest) (r : Result (Expiry × Db))
      → expire_tx env now w.db ≡ r
      → bind_result (settled w r).0 (settled w r).1 (after_expiry env now) ≡ (ok (some m), after)
      → (is_expired env.platform m now ≡ false) ⊎ (m.soft_deleted ≡ true)
  settled_lem now m w after (err x) h e = let r = ap (λ p. p.0) e in cc
  settled_lem now m w after (ok (expiry, db)) h e =
      elim (after_expiry_lem now m (record w { db = db }) after expiry e) [
        | inl k ↦ inl (expire_tx-kept now m w.db db (h ∙ ap (λ x. ok (x, db)) k))
        | inr d ↦ inr d
      ]

  check_visible_lem :
      (now : ℤ) (m : Meta) (w after : World env.Rest) (found : Option Meta)
      → check_visible env now found w ≡ (ok (some m), after)
      → (is_expired env.platform m now ≡ false) ⊎ (m.soft_deleted ≡ true)
  unfolding check_visible expire transact schedule_maintenance_after schedule
  check_visible_lem now m w after none e = let r = ap (λ p. p.0) e in cc
  check_visible_lem now m w after (some meta) e =
      elim (Bool-cases (is_expired env.platform meta now)) [
        | inl x ↦
            settled_lem now m (schedule_maintenance_after env maintenance_retry_ms w).1 after
              (expire_tx env now w.db) refl (rw x at e)
        | inr x ↦
            let r = rw x at e in
            inl
              (ap (λ k. is_expired env.platform k now) (some_injective (sym (ap (λ p. p.0) r))) ∙ x)
      ]

  -- A request never sees an expired stream, unless it is marked as deleted.
  pub visible_meta_not_expired :
      (now : ℤ) (m : Meta) (w after : World env.Rest)
      → visible_meta env now w ≡ (ok (some m), after)
      → (is_expired env.platform m now ≡ false) ⊎ (m.soft_deleted ≡ true)
  unfolding visible_meta
  visible_meta_not_expired now m w after e = check_visible_lem now m w after w.db.meta e
