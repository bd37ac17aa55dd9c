-- ===== src/Actor/Fork.antt =====
-- src/actor/fork.rs: the source's side of a fork.
pub mod Create
pub mod References
pub mod Releases
pub mod Points
pub mod Duty
use rivet_durable_streams.Prelude.{
  ℕ, Bool, true, false, not, ◌&&◌, ◌||◌, ℤ, Text, List, [], ◌∷◌, Option, none, some, ltb, ◌==◌,
  if◌then◌else◌, is_empty, is_none, is_some_and, unwrap_or, text_eq, text_lt, codes, Result, ok,
  err,
}
use rivet_durable_streams.Protocol.Offset.{zero_offset, is_concrete_offset}
use rivet_durable_streams.Protocol.Content.{normalize_content_type, trim}
use rivet_durable_streams.Store.Tables.{Meta, Db}
use rivet_durable_streams.Store.Forks.{
  get_fork_edge, insert_fork_edge, delete_fork_edge, fork_edge_count,
}
use rivet_durable_streams.Actor.Types.{
  Env, ForkAcquire, ForkAcquireResult, acquired, not_acquired, ForkRelease, maintenance_retry_ms,
}
use rivet_durable_streams.Actor.Exec.{
  Exec, pure, raise, ◌>>=◌, ◌>>◌, get_db, transact, notify_change,
}
use rivet_durable_streams.Actor.Maintenance.{
  schedule_maintenance_after, flush_gc_releases, purge_stream,
}
use rivet_durable_streams.Actor.Lifecycle.{visible_meta}

-- The edge is recorded: the answer is the one that was given before.
unfoldable pub acquired_before : Text → Db → Option ForkAcquireResult
unfolding get_fork_edge acquired
acquired_before edge_id db = elim (get_fork_edge edge_id db) [
  | none ↦ none
  | some recorded_offset ↦ elim db.meta [
    | none ↦ none
    | some meta ↦ some (acquired recorded_offset meta)
  ]
]

unfoldable pub content_type_differs : Option Text → Meta → Bool
unfolding trim normalize_content_type
content_type_differs provided meta = is_some_and provided (λ t.
    not (is_empty (trim t))
    && not (text_eq (normalize_content_type (some t)) (normalize_content_type meta.content_type)))

unfoldable pub is_fork_point : Text → Meta → Bool
unfolding is_concrete_offset
is_fork_point fork_offset meta = not (
    not (is_concrete_offset fork_offset)
    || text_lt fork_offset zero_offset
    || text_lt meta.current_offset fork_offset)

unfoldable pub acquire_tx : Text → Text → Meta → Db → Result (ForkAcquireResult × Db)
unfolding insert_fork_edge acquired
acquire_tx edge_id fork_offset meta db = elim (insert_fork_edge edge_id fork_offset db) [
  | ok (recorded_offset, after) ↦ ok (acquired recorded_offset meta, after)
  | err e ↦ err e
]

module _ (env : Env) where
  unfoldable pub acquire_checked : ForkAcquire → Meta → Exec env.Rest ForkAcquireResult
  unfolding content_type_differs is_fork_point acquire_tx not_acquired transact
  acquire_checked action meta =
      let fork_offset = unwrap_or action.fork_offset meta.current_offset in
      if meta.soft_deleted
      then pure (not_acquired (codes "soft_deleted"))
      else if content_type_differs action.content_type_provided meta
      then pure (not_acquired (codes "content_type_mismatch"))
      else if not (is_fork_point fork_offset meta)
      then pure (not_acquired (codes "invalid_offset"))
      else transact (acquire_tx action.edge_id fork_offset meta)

  unfoldable pub acquire_visible : ForkAcquire → Option Meta → Exec env.Rest ForkAcquireResult
  unfolding acquire_checked not_acquired
  acquire_visible action none = pure (not_acquired (codes "not_found"))
  acquire_visible action (some meta) = acquire_checked action meta

  unfoldable pub acquire_new :
      ℤ → ForkAcquire → Option ForkAcquireResult → Exec env.Rest ForkAcquireResult
  unfolding acquire_visible visible_meta
  acquire_new now action (some result) = pure result
  acquire_new now action none = do meta ← visible_meta env now; acquire_visible action meta

  unfoldable pub fork_acquire : ℤ → ForkAcquire → Exec env.Rest ForkAcquireResult
  unfolding acquired_before acquire_new
  fork_acquire now action =
      if is_empty action.edge_id
      then raise "fork acquire requires a non-empty edge id"
      else do db ← get_db; acquire_new now action (acquired_before action.edge_id db)

  -- Whether the edge was there, and whether it was the last one of a deleted stream.
  unfoldable pub release_tx : ForkRelease → Meta → Db → Result ((Bool × Bool) × Db)
  unfolding get_fork_edge delete_fork_edge fork_edge_count purge_stream
  release_tx action meta db =
      if is_none (get_fork_edge action.edge_id db)
      then ok ((false, false), db)
      else let rest = delete_fork_edge action.edge_id db in
        if meta.soft_deleted && fork_edge_count rest == 0
        then ok ((true, true), purge_stream meta rest)
        else ok ((true, false), rest)

  unfoldable pub after_release : Bool × Bool → Exec env.Rest (Unit {0})
  unfolding notify_change flush_gc_releases
  after_release (false, purged) = pure tt
  after_release (true, false) = notify_change
  after_release (true, true) = do notify_change; flush_gc_releases env

  unfoldable pub release_from : ForkRelease → Meta → Exec env.Rest (Unit {0})
  unfolding schedule_maintenance_after transact release_tx after_release
  release_from action meta = do
    if meta.soft_deleted then schedule_maintenance_after env maintenance_retry_ms else pure tt
    found ← transact (release_tx action meta)
    after_release found

  unfoldable pub release_current : ForkRelease → Option Meta → Exec env.Rest (Unit {0})
  unfolding release_from
  release_current action none = pure tt
  release_current action (some meta) =
      if is_some_and action.source_generation (λ g. not (text_eq g meta.generation))
      then pure tt
      else release_from action meta

  unfoldable pub fork_release : ForkRelease → Exec env.Rest (Unit {0})
  unfolding release_current
  fork_release action =
      if is_empty action.edge_id
      then raise "fork release requires a non-empty edge id"
      else do db ← get_db; release_current action db.meta
