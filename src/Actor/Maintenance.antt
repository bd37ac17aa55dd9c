-- ===== src/Actor/Maintenance.antt =====
-- src/actor/maintenance.rs: scheduling, the releases that an actor owes its source streams, and the
-- purge of a stream.
pub mod Sending
pub mod Retries
use rivet_durable_streams.Prelude.{
  ℕ, Bool, true, false, ◌||◌, Text, List, [], ◌∷◌, Option, none, some, if◌then◌else◌, Result, ok,
  err,
}
use rivet_durable_streams.Store.Tables.{Meta, GcRelease, ForkIntent, Db}
use rivet_durable_streams.Store.Meta.{expiry_time, purge}
use rivet_durable_streams.Store.Forks.{
  pending_gc_releases, dequeue_gc_release, enqueue_gc_release, pending_fork_intents,
  delete_fork_intent,
}
use rivet_durable_streams.Actor.Types.{Env, after, at, ForkAcquireResult, maintenance_retry_ms}
use rivet_durable_streams.Actor.Exec.{
  Exec, pure, raise, ◌>>=◌, ◌>>◌, get_db, commit, schedule, call, pause,
}

module _ (env : Env) where
  unfoldable pub schedule_maintenance_after : ℕ → Exec env.Rest (Unit {0})
  unfolding schedule
  schedule_maintenance_after delay_ms = schedule (after delay_ms)

  unfoldable pub schedule_expiry : Meta → Exec env.Rest (Unit {0})
  unfolding schedule
  schedule_expiry meta = elim (expiry_time env.platform meta) [
    | none ↦ pure tt
    | some expiry ↦ schedule (at expiry)
  ]

  -- The client's handle of the stream at a path, in the actor's own tenant.
  unfoldable pub source_handle : Text → Exec env.Rest env.Handle
  source_handle path w = (env.source_handle w.tenant_scope path, w)

  unfoldable pub dequeue_if_ok : Text → Result (Unit {0}) → Exec env.Rest Bool
  unfolding commit dequeue_gc_release
  dequeue_if_ok edge_id (ok _) = do commit (dequeue_gc_release edge_id); pure false
  dequeue_if_ok edge_id (err e) = pure true

  -- One owed release; the result tells whether it has to be tried again.
  unfoldable pub send_release : GcRelease → Exec env.Rest Bool
  unfolding source_handle call dequeue_if_ok
  send_release release = do
    handle ← source_handle release.parent_path
    result ← call (
        env.fork_release handle
          (record { edge_id = release.edge_id; source_generation = release.source_generation }))
    dequeue_if_ok release.edge_id result

  unfoldable pub send_releases : List GcRelease → Bool → Exec env.Rest Bool
  unfolding send_release
  send_releases [] retry = pure retry
  send_releases (release ∷ rest) retry = do
    failed ← send_release release
    send_releases rest (retry || failed)

  unfoldable pub schedule_retry : Bool → Exec env.Rest (Unit {0})
  unfolding schedule_maintenance_after
  schedule_retry false = pure tt
  schedule_retry true = schedule_maintenance_after maintenance_retry_ms

  unfoldable pub flush_pending : List GcRelease → Exec env.Rest (Unit {0})
  unfolding send_releases schedule_retry
  flush_pending [] = pure tt
  flush_pending (release ∷ rest) = do
    retry ← send_releases (release ∷ rest) false
    schedule_retry retry

  unfoldable pub flush_gc_releases : Exec env.Rest (Unit {0})
  unfolding flush_pending pending_gc_releases
  flush_gc_releases = do db ← get_db; flush_pending (pending_gc_releases db)

  -- After a reference was acquired for an intent whose stream was never created.
  unfoldable pub settle_intent : ForkIntent → ForkAcquireResult → Db → Db
  unfolding enqueue_gc_release delete_fork_intent
  settle_intent intent acquired db = delete_fork_intent intent.edge_id (
      if acquired.is_ok
      then enqueue_gc_release intent.edge_id intent.parent_path acquired.source_generation db
      else db)

  unfoldable pub settle_reply : ForkIntent → Result ForkAcquireResult → Exec env.Rest (Unit {0})
  unfolding settle_intent schedule_maintenance_after commit
  settle_reply intent (err e) = schedule_maintenance_after maintenance_retry_ms
  settle_reply intent (ok acquired) = commit (settle_intent intent acquired)

  unfoldable pub params_of : ForkIntent → Exec env.Rest (Option Text)
  params_of intent = elim (env.platform.params_from_text intent.params_key) [
    | none ↦ raise "invalid params key"
    | some (_, fork_offset) ↦ pure fork_offset
  ]

  -- No lock is held here: other callbacks may run before the source has answered.
  unfoldable pub reconcile_intent : ForkIntent → Exec env.Rest (Unit {0})
  unfolding params_of source_handle call pause settle_reply
  reconcile_intent intent = do
    fork_offset ← params_of intent
    handle ← source_handle intent.parent_path
    reply ← call (
        env.fork_acquire handle (record {
          edge_id = intent.edge_id;
          fork_offset = fork_offset;
          content_type_provided = none;
        }))
    pause env.during
    settle_reply intent reply

  unfoldable pub reconcile_each : List ForkIntent → Exec env.Rest (Unit {0})
  unfolding reconcile_intent
  reconcile_each [] = pure tt
  reconcile_each (intent ∷ rest) = do reconcile_intent intent; reconcile_each rest

  unfoldable pub reconcile_fork_intents : Exec env.Rest (Unit {0})
  unfolding reconcile_each pending_fork_intents pause flush_gc_releases
  reconcile_fork_intents = do
    db ← get_db
    reconcile_each (pending_fork_intents db)
    pause env.during
    flush_gc_releases

-- A fork that goes owes its source a release.
unfoldable pub owe_release : Option Text → Option Text → Option Text → Db → Db
unfolding enqueue_gc_release
owe_release (some parent_path) (some edge_id) source_generation db =
    enqueue_gc_release edge_id parent_path source_generation db
owe_release _ _ source_generation db = db

unfoldable pub purge_stream : Meta → Db → Db
unfolding owe_release purge
purge_stream meta db =
    purge (owe_release meta.forked_from meta.fork_edge_id meta.fork_source_gen db)
