-- ===== src/Actor/Lifecycle.antt =====
-- src/actor/lifecycle.rs
pub mod Visible
use rivet_durable_streams.Prelude.{
  ℕ, Bool, true, false, not, ℤ, Text, List, [], ◌∷◌, ◌++◌, Option, none, some, ltb, if◌then◌else◌,
  codes, Result, ok, err,
}
use rivet_durable_streams.Protocol.Http.{Response, Headers, response, text_response, insert_header}
use rivet_durable_streams.Store.Tables.{Meta, Db}
use rivet_durable_streams.Store.Meta.{is_expired, touch, set_soft_deleted}
use rivet_durable_streams.Store.Forks.{fork_edge_count}
use rivet_durable_streams.Actor.Types.{Env, World, maintenance_retry_ms}
use rivet_durable_streams.Actor.Exec.{
  Exec, pure, lift, ◌>>=◌, ◌>>◌, get_db, transact, commit, notify_change,
}
use rivet_durable_streams.Actor.Maintenance.{
  schedule_maintenance_after, flush_gc_releases, purge_stream,
}
use rivet_durable_streams.Actor.Tags.{metadata_headers, make_etag}

-- What the transaction that expires a stream finds and does.
pub data Expiry : Type 0 where
  gone : Expiry
  kept : Meta → Expiry
  hidden : Meta → Expiry
  purged : Expiry

module _ (env : Env) (now : ℤ) where
  unfoldable pub expire_fresh : Meta → Db → Result (Expiry × Db)
  unfolding is_expired fork_edge_count set_soft_deleted purge_stream
  expire_fresh fresh db =
      if not (is_expired env.platform fresh now)
      then ok (kept fresh, db)
      else if ltb 0 (fork_edge_count db)
      then ok (hidden fresh, set_soft_deleted db)
      else ok (purged, purge_stream fresh db)

  unfoldable pub expire_tx : Db → Result (Expiry × Db)
  unfolding expire_fresh
  expire_tx db = elim db.meta [ none ↦ ok (gone, db) | some fresh ↦ expire_fresh fresh db ]

  unfoldable pub after_expiry : Expiry → Exec env.Rest (Option Meta)
  unfolding notify_change flush_gc_releases
  after_expiry gone = pure none
  after_expiry (kept fresh) = pure (some fresh)
  after_expiry (hidden fresh) = do notify_change; pure (some (record fresh { soft_deleted = true }))
  after_expiry purged = do notify_change; flush_gc_releases env; pure none

  unfoldable pub expire : Exec env.Rest (Option Meta)
  unfolding transact expire_tx after_expiry schedule_maintenance_after
  expire = do
    schedule_maintenance_after env maintenance_retry_ms
    expiry ← transact expire_tx
    after_expiry expiry

  unfoldable pub check_visible : Option Meta → Exec env.Rest (Option Meta)
  unfolding is_expired expire
  check_visible none = pure none
  check_visible (some meta) =
      if not (is_expired env.platform meta now) then pure (some meta) else expire

  -- The stream as it is at `now`: an expired one is first made to go. (`visible_meta` is the same
  -- under the lock.)
  unfoldable pub visible_meta : Exec env.Rest (Option Meta)
  unfolding check_visible
  visible_meta = do db ← get_db; check_visible db.meta

  unfoldable pub touch_access : Exec env.Rest (Unit {0})
  unfolding commit touch
  touch_access = commit (touch now)

  unfoldable pub head_response : Text → Option Meta → Response
  unfolding response insert_header metadata_headers make_etag
  head_response actor_id none = response 404 (("content-type", codes "text/plain") ∷ []) []
  head_response actor_id (some meta) =
      if meta.soft_deleted
      then response 410 (("content-type", codes "text/plain") ∷ []) []
      else response 200
          (insert_header "etag"
            (make_etag env.platform actor_id (codes "-1") meta.current_offset meta.closed)
            (insert_header "cache-control" (codes "no-store") (metadata_headers meta)))
          []

  unfoldable pub handle_head : Text → Exec env.Rest Response
  unfolding visible_meta head_response
  handle_head actor_id = do meta ← visible_meta; pure (head_response actor_id meta)

  -- A stream with forks stays for them, unseen; another goes at once.
  unfoldable pub delete_tx : Meta → Db → Result (Bool × Db)
  unfolding fork_edge_count set_soft_deleted purge_stream
  delete_tx meta db =
      if ltb 0 (fork_edge_count db)
      then ok (true, set_soft_deleted db)
      else ok (false, purge_stream meta db)

  unfoldable pub delete_live : Meta → Exec env.Rest Response
  unfolding schedule_maintenance_after transact delete_tx notify_change flush_gc_releases response
  delete_live meta = do
    schedule_maintenance_after env maintenance_retry_ms
    soft_delete ← transact (delete_tx meta)
    notify_change
    if soft_delete then pure tt else flush_gc_releases env
    pure (response 204 [] [])

  unfoldable pub delete_visible : Option Meta → Exec env.Rest Response
  unfolding delete_live text_response
  delete_visible none = pure (text_response 404 (codes "Stream not found") [])
  delete_visible (some meta) =
      if meta.soft_deleted
      then pure (text_response 410 (codes "Stream is gone") [])
      else delete_live meta

  unfoldable pub handle_delete : Exec env.Rest Response
  unfolding visible_meta delete_visible
  handle_delete = do meta ← visible_meta; delete_visible meta
