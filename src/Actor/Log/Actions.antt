-- ===== src/Actor/Log/Actions.antt =====
-- The actions of src/actor/fork.rs and `run_maintenance` as runs of the abstract log.
use rivet_durable_streams.Prelude.{
  ℕ, ◌≡◌, refl, inl, inr, Bool, true, false, ◌&&◌, ◌==◌, ℤ, Text, Option, none, some, is_none,
  unwrap_or, Result, ok, err, Bool-cases, ◌>>=◌ as bind, ok_or,
}
use rivet_durable_streams.Store.Tables.{Meta, Db}
use rivet_durable_streams.Store.Forks.{
  get_fork_edge, insert_fork_edge, delete_fork_edge, fork_edge_count,
}
use rivet_durable_streams.Actor.Types.{acquired, Env, ForkAcquire, ForkAcquireResult, ForkRelease}
use rivet_durable_streams.Actor.Maintenance.{purge_stream}
use rivet_durable_streams.Actor.Recovery.{reconcile_if_absent, schedule_if_live, run_maintenance}
use rivet_durable_streams.Actor.Fork.{
  acquire_tx, acquire_checked, acquire_visible, acquire_new, fork_acquire, release_tx,
  after_release, release_from, release_current, fork_release,
}
use rivet_durable_streams.Actor.Log.{stream, here}
use rivet_durable_streams.Actor.Log.Tables.{Evolves, ended_with}
use rivet_durable_streams.Actor.Log.Steps.{Respects, transact-Respects, pause-Respects, respects}
use rivet_durable_streams.Actor.Log.Lifecycle.{
  visible_meta-Respects, flush_gc_releases-Respects, reconcile_fork_intents-Respects,
  schedule_expiry-Respects, purge_stream-Evolves,
}

acquired-Evolves :
    {watched : Text} (found : Option Text) (meta : Meta) (db after : Db)
    (answer : ForkAcquireResult) (end : Db)
    → stream after ≡ stream db
    → ◌≡◌ {A = Result (ForkAcquireResult × Db)}
        (elim (bind {B = Text × Db}
          (ok_or found "fork edge was not persisted")
          (λ r. ok (r, after))) [
            | ok (recorded, d) ↦ ok (acquired recorded meta, d)
            | err e ↦ err e
          ])
        (ok (answer, end))
    → Evolves watched db end
acquired-Evolves none meta db after answer end s h = cc
acquired-Evolves (some recorded) meta db after answer end s h =
    ended_with (acquired recorded meta) answer db after end h (rw s here)

acquire_tx-Evolves :
    {watched : Text} (edge_id fork_offset : Text) (meta : Meta) (db : Db)
    (answer : ForkAcquireResult) (end : Db)
    → acquire_tx edge_id fork_offset meta db ≡ ok (answer, end)
    → Evolves watched db end
unfolding acquire_tx insert_fork_edge stream
acquire_tx-Evolves edge_id fork_offset meta db answer end h =
    acquired-Evolves _ meta db _ answer end refl h

module _ {watched : Text} (env : Env) where
  release_tx-Evolves :
      (action : ForkRelease) (meta : Meta) (db : Db) (found : Bool × Bool) (end : Db)
      → release_tx env action meta db ≡ ok (found, end)
      → Evolves watched db end
  unfolding release_tx delete_fork_edge stream
  release_tx-Evolves action meta db found end h =
      elim (Bool-cases (is_none (get_fork_edge action.edge_id db))) [
        | inl e ↦ ended_with (false, false) found db db end (rw e at h) here
        | inr e ↦
            let rest = delete_fork_edge action.edge_id db in
            elim (Bool-cases (meta.soft_deleted && fork_edge_count rest == 0)) [
              | inl last ↦
                  ended_with (true, true) found db (purge_stream meta rest) end (rw (e, last) at h)
                    (purge_stream-Evolves meta rest)
              | inr more ↦ ended_with (true, false) found db rest end (rw (e, more) at h) here
            ]
      ]

  acquire_checked-Respects :
      (action : ForkAcquire) (meta : Meta) → Respects watched (acquire_checked env action meta)
  unfolding acquire_checked
  acquire_checked-Respects action meta = search (
    respects,
    transact-Respects _
        (acquire_tx-Evolves action.edge_id (unwrap_or action.fork_offset meta.current_offset) meta),
  )

  acquire_visible-Respects :
      (action : ForkAcquire) (found : Option Meta)
      → Respects watched (acquire_visible env action found)
  unfolding acquire_visible
  acquire_visible-Respects action none = search respects
  acquire_visible-Respects action (some meta) = acquire_checked-Respects action meta

  acquire_new-Respects :
      (now : ℤ) (action : ForkAcquire) (before : Option ForkAcquireResult)
      → Respects watched (acquire_new env now action before)
  unfolding acquire_new
  acquire_new-Respects now action (some result) = search respects
  acquire_new-Respects now action none =
      search (respects, visible_meta-Respects, acquire_visible-Respects)

  pub fork_acquire-Respects :
      (now : ℤ) (action : ForkAcquire) → Respects watched (fork_acquire env now action)
  unfolding fork_acquire
  fork_acquire-Respects now action = search (respects, acquire_new-Respects now action)

  after_release-Respects : (found : Bool × Bool) → Respects watched (after_release env found)
  unfolding after_release
  after_release-Respects (false, purged) = search respects
  after_release-Respects (true, false) = search respects
  after_release-Respects (true, true) = search (respects, flush_gc_releases-Respects)

  release_from-Respects :
      (action : ForkRelease) (meta : Meta) → Respects watched (release_from env action meta)
  unfolding release_from
  release_from-Respects action meta =
      search
        (respects, transact-Respects _ (release_tx-Evolves action meta), after_release-Respects)
        depth 9

  release_current-Respects :
      (action : ForkRelease) (found : Option Meta)
      → Respects watched (release_current env action found)
  unfolding release_current
  release_current-Respects action none = search respects
  release_current-Respects action (some meta) = search (respects, release_from-Respects)

  pub fork_release-Respects : (action : ForkRelease) → Respects watched (fork_release env action)
  unfolding fork_release
  fork_release-Respects action = search (respects, release_current-Respects)

  schedule_if_live-Respects :
      (now : ℤ) (found : Option Meta) → Respects watched (schedule_if_live env now found)
  unfolding schedule_if_live
  schedule_if_live-Respects now none = search respects
  schedule_if_live-Respects now (some meta) = search (respects, schedule_expiry-Respects)

  module _ (others : (n : ℕ) (db : Db) → Evolves watched db (env.during n db)) where
    reconcile_if_absent-Respects :
        (now : ℤ) (found : Option Meta) → Respects watched (reconcile_if_absent env now found)
    unfolding reconcile_if_absent
    reconcile_if_absent-Respects now none = reconcile_fork_intents-Respects env others
    reconcile_if_absent-Respects now (some meta) = search respects

    pub run_maintenance-Respects : (now : ℤ) → Respects watched (run_maintenance env now)
    unfolding run_maintenance
    run_maintenance-Respects now =
        search
          (
            respects,
            pause-Respects _ others,
            reconcile_if_absent-Respects,
            flush_gc_releases-Respects,
            visible_meta-Respects,
            schedule_if_live-Respects,
          )
          depth 20
