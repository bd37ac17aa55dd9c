-- ===== src/Actor/Recovery.antt =====
-- src/actor/maintenance.rs: `run_maintenance`.
use rivet_durable_streams.Prelude.{ℤ, Option, none, some, if◌then◌else◌}
use rivet_durable_streams.Store.Tables.{Meta}
use rivet_durable_streams.Actor.Types.{Env}
use rivet_durable_streams.Actor.Exec.{Exec, pure, ◌>>=◌, ◌>>◌, get_db, pause}
use rivet_durable_streams.Actor.Maintenance.{
  reconcile_fork_intents, flush_gc_releases, schedule_expiry,
}
use rivet_durable_streams.Actor.Lifecycle.{visible_meta}

module _ (env : Env) (now : ℤ) where
  -- Intents are left over only where their stream was never created.
  unfoldable pub reconcile_if_absent : Option Meta → Exec env.Rest (Unit {0})
  unfolding reconcile_fork_intents
  reconcile_if_absent none = reconcile_fork_intents env
  reconcile_if_absent (some meta) = pure tt

  unfoldable pub schedule_if_live : Option Meta → Exec env.Rest (Unit {0})
  unfolding schedule_expiry
  schedule_if_live none = pure tt
  schedule_if_live (some meta) = if meta.soft_deleted then pure tt else schedule_expiry env meta

  -- Only `visible_meta` takes the lock: other callbacks may run between the steps.
  unfoldable pub run_maintenance : Exec env.Rest (Unit {0})
  unfolding pause reconcile_if_absent flush_gc_releases visible_meta schedule_if_live
  run_maintenance = do
    db ← get_db
    pause env.during
    reconcile_if_absent db.meta
    pause env.during
    flush_gc_releases env
    pause env.during
    meta ← visible_meta env now
    schedule_if_live meta
