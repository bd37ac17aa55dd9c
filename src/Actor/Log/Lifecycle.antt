-- ===== src/Actor/Log/Lifecycle.antt =====
-- The handlers of src/actor/maintenance.rs and src/actor/lifecycle.rs as runs of the abstract log.
use rivet_durable_streams.Prelude.{
  ℕ, ◌≡◌, refl, inl, inr, Bool, true, false, ℤ, Text, List, [], ◌∷◌, Option, none, some, ltb,
  Result, ok, err, Bool-cases, Option-cases,
}
use rivet_durable_streams.Store.Tables.{Meta, GcRelease, ForkIntent, Db}
use rivet_durable_streams.Store.Meta.{is_expired, expiry_time, set_soft_deleted}
use rivet_durable_streams.Store.Forks.{
  dequeue_gc_release, enqueue_gc_release, delete_fork_intent, fork_edge_count,
}
use rivet_durable_streams.Actor.Types.{Env, ForkAcquireResult, at}
use rivet_durable_streams.Actor.Exec.{pure, schedule}
use rivet_durable_streams.Actor.Maintenance.{
  schedule_maintenance_after, schedule_expiry, source_handle, dequeue_if_ok, send_release,
  send_releases, schedule_retry, flush_pending, flush_gc_releases, settle_intent, settle_reply,
  params_of, reconcile_intent, reconcile_each, reconcile_fork_intents, owe_release, purge_stream,
}
use rivet_durable_streams.Actor.Lifecycle.{
  Expiry, gone, kept, hidden, purged, expire_fresh, expire_tx, after_expiry, expire, check_visible,
  visible_meta, touch_access, handle_head, delete_tx, delete_live, delete_visible, handle_delete,
}
use rivet_durable_streams.Actor.Log.{stream, here}
use rivet_durable_streams.Actor.Log.Tables.{
  Evolves, ended_with, set_soft_deleted-Evolves, purge-Evolves, touch-Evolves,
}
use rivet_durable_streams.Actor.Log.Steps.{
  Respects, bind-Respects, pure-Respects, raise-Respects, commit-Respects, transact-Respects,
  pause-Respects, respects,
}

owe_release-stream :
    (path edge_id gen : Option Text) (db : Db)
    → stream (owe_release path edge_id gen db) ≡ stream db
unfolding stream owe_release enqueue_gc_release
owe_release-stream none edge_id gen db = refl
owe_release-stream (some path) none gen db = refl
owe_release-stream (some path) (some edge_id) gen db = refl

pub purge_stream-Evolves :
    {watched : Text} (meta : Meta) (db : Db) → Evolves watched db (purge_stream meta db)
unfolding purge_stream
purge_stream-Evolves meta db =
    rw (← owe_release-stream meta.forked_from meta.fork_edge_id meta.fork_source_gen db)
      (purge-Evolves (owe_release meta.forked_from meta.fork_edge_id meta.fork_source_gen db))

dequeue-Evolves :
    {watched : Text} (edge_id : Text) (db : Db) → Evolves watched db (dequeue_gc_release edge_id db)
unfolding stream dequeue_gc_release
dequeue-Evolves edge_id db = here

settle_intent-Evolves :
    {watched : Text} (env : Env) (intent : ForkIntent) (acquired : ForkAcquireResult) (db : Db)
    → Evolves watched db (settle_intent env intent acquired db)
unfolding stream settle_intent delete_fork_intent enqueue_gc_release
settle_intent-Evolves env intent acquired db = elim (Bool-cases acquired.is_ok) [
  | inl e ↦ rw e here
  | inr e ↦ rw e here
]

module _ {watched : Text} (env : Env) where
  pub source_handle-Respects : (path : Text) → Respects watched (source_handle env path)
  unfolding source_handle
  source_handle-Respects path = record { at = λ w. record { run = here } }

  pub schedule_after-Respects : (ms : ℕ) → Respects watched (schedule_maintenance_after env ms)
  unfolding schedule_maintenance_after
  schedule_after-Respects ms = search respects

  pub schedule_expiry-Respects : (meta : Meta) → Respects watched (schedule_expiry env meta)
  unfolding schedule_expiry
  schedule_expiry-Respects meta =
      elim (expiry_time env.platform meta)
        as (λ (t : Option ℤ).
          Respects {R = env.Rest} watched
            (elim t [ none ↦ pure tt | some expiry ↦ schedule (at expiry) ])) [
              | none ↦ search respects
              | some expiry ↦ search respects
            ]

  dequeue_if_ok-Respects :
      (edge_id : Text) (r : Result (Unit {0})) → Respects watched (dequeue_if_ok env edge_id r)
  unfolding dequeue_if_ok
  dequeue_if_ok-Respects edge_id (ok u) =
      search (respects, commit-Respects _ (dequeue-Evolves edge_id))
  dequeue_if_ok-Respects edge_id (err e) = search respects

  send_release-Respects : (release : GcRelease) → Respects watched (send_release env release)
  unfolding send_release
  send_release-Respects release = search (respects, source_handle-Respects, dequeue_if_ok-Respects)

  send_releases-Respects :
      (releases : List GcRelease) (retry : Bool)
      → Respects watched (send_releases env releases retry)
  unfolding send_releases
  send_releases-Respects [] retry = search respects
  send_releases-Respects (r ∷ rs) retry =
      search (respects, send_release-Respects, send_releases-Respects rs)

  schedule_retry-Respects : (retry : Bool) → Respects watched (schedule_retry env retry)
  unfolding schedule_retry
  schedule_retry-Respects false = search respects
  schedule_retry-Respects true = schedule_after-Respects _

  flush_pending-Respects :
      (releases : List GcRelease) → Respects watched (flush_pending env releases)
  unfolding flush_pending
  flush_pending-Respects [] = search respects
  flush_pending-Respects (r ∷ rs) =
      search (respects, send_releases-Respects, schedule_retry-Respects)

  pub flush_gc_releases-Respects : Respects watched (flush_gc_releases env)
  unfolding flush_gc_releases
  flush_gc_releases-Respects = search (respects, flush_pending-Respects)

  settle_reply-Respects :
      (intent : ForkIntent) (reply : Result ForkAcquireResult)
      → Respects watched (settle_reply env intent reply)
  unfolding settle_reply
  settle_reply-Respects intent (err e) = schedule_after-Respects _
  settle_reply-Respects intent (ok acquired) =
      commit-Respects _ (settle_intent-Evolves env intent acquired)

  params_of-Respects : (intent : ForkIntent) → Respects watched (params_of env intent)
  unfolding params_of
  params_of-Respects intent =
      elim (Option-cases (env.platform.params_from_text intent.params_key)) [
        | inl e ↦ rw (e, params_of) (raise-Respects "invalid params key")
        | inr (params, e) ↦ rw (e, params_of) (pure-Respects params.1)
      ]

  module _ (others : (n : ℕ) (db : Db) → Evolves watched db (env.during n db)) where
    reconcile_intent-Respects :
        (intent : ForkIntent) → Respects watched (reconcile_intent env intent)
    unfolding reconcile_intent
    reconcile_intent-Respects intent =
        search
          (
            respects,
            pause-Respects _ others,
            params_of-Respects,
            source_handle-Respects,
            settle_reply-Respects,
          )
          depth 14

    reconcile_each-Respects :
        (intents : List ForkIntent) → Respects watched (reconcile_each env intents)
    unfolding reconcile_each
    reconcile_each-Respects [] = search respects
    reconcile_each-Respects (i ∷ is) =
        let rest = reconcile_each-Respects is in
        bind-Respects _ _ (reconcile_intent-Respects i) (λ u. rest)

    pub reconcile_fork_intents-Respects : Respects watched (reconcile_fork_intents env)
    unfolding reconcile_fork_intents
    reconcile_fork_intents-Respects =
        search
          (respects, pause-Respects _ others, reconcile_each-Respects, flush_gc_releases-Respects)
          depth 12

  module _ (now : ℤ) where
    expire_fresh-Evolves :
        (fresh : Meta) (db : Db) (expiry : Expiry) (end : Db)
        → expire_fresh env now fresh db ≡ ok (expiry, end)
        → Evolves watched db end
    unfolding expire_fresh
    expire_fresh-Evolves fresh db expiry end h =
        elim (Bool-cases (is_expired env.platform fresh now)) [
          | inr live ↦ ended_with (kept fresh) expiry db db end (rw live at h) here
          | inl old ↦ elim (Bool-cases (ltb 0 (fork_edge_count db))) [
            | inl forks ↦
                ended_with (hidden fresh) expiry db (set_soft_deleted db) end (rw (old, forks) at h)
                  (set_soft_deleted-Evolves db)
            | inr none_left ↦
                ended_with purged expiry db (purge_stream fresh db) end (rw (old, none_left) at h)
                  (purge_stream-Evolves fresh db)
          ]
        ]

    expire_tx-Evolves :
        (db : Db) (expiry : Expiry) (end : Db)
        → expire_tx env now db ≡ ok (expiry, end)
        → Evolves watched db end
    unfolding expire_tx
    expire_tx-Evolves db expiry end h = elim (Option-cases db.meta) [
      | inl e ↦ ended_with gone expiry db db end (rw (e, expire_tx) at h) here
      | inr (fresh, e) ↦ expire_fresh-Evolves fresh db expiry end (rw (e, expire_tx) at h)
    ]

    after_expiry-Respects : (expiry : Expiry) → Respects watched (after_expiry env now expiry)
    unfolding after_expiry
    after_expiry-Respects gone = search respects
    after_expiry-Respects (kept fresh) = search respects
    after_expiry-Respects (hidden fresh) = search respects
    after_expiry-Respects purged = search (respects, flush_gc_releases-Respects)

    expire-Respects : Respects watched (expire env now)
    unfolding expire
    expire-Respects =
        search (respects, transact-Respects _ expire_tx-Evolves, after_expiry-Respects)

    check_visible-Respects : (found : Option Meta) → Respects watched (check_visible env now found)
    unfolding check_visible
    check_visible-Respects none = search respects
    check_visible-Respects (some meta) = search (respects, expire-Respects)

    pub visible_meta-Respects : Respects watched (visible_meta env now)
    unfolding visible_meta
    visible_meta-Respects = search (respects, check_visible-Respects)

    pub touch_access-Respects : Respects watched (touch_access env now)
    unfolding touch_access
    touch_access-Respects = commit-Respects _ (touch-Evolves now)

    pub handle_head-Respects : (actor_id : Text) → Respects watched (handle_head env now actor_id)
    unfolding handle_head
    handle_head-Respects actor_id = search (respects, visible_meta-Respects)

    delete_tx-Evolves :
        (meta : Meta) (db : Db) (soft : Bool) (end : Db)
        → delete_tx env now meta db ≡ ok (soft, end)
        → Evolves watched db end
    unfolding delete_tx
    delete_tx-Evolves meta db soft end h = elim (Bool-cases (ltb 0 (fork_edge_count db))) [
      | inl forks ↦
          ended_with true soft db (set_soft_deleted db) end (rw forks at h)
            (set_soft_deleted-Evolves db)
      | inr none_left ↦
          ended_with false soft db (purge_stream meta db) end (rw none_left at h)
            (purge_stream-Evolves meta db)
    ]

    delete_live-Respects : (meta : Meta) → Respects watched (delete_live env now meta)
    unfolding delete_live
    delete_live-Respects meta =
        search (respects, transact-Respects _ (delete_tx-Evolves meta), flush_gc_releases-Respects)
          depth 9

    delete_visible-Respects :
        (found : Option Meta) → Respects watched (delete_visible env now found)
    unfolding delete_visible
    delete_visible-Respects none = search respects
    delete_visible-Respects (some meta) = search (respects, delete_live-Respects)

    pub handle_delete-Respects : Respects watched (handle_delete env now)
    unfolding handle_delete
    handle_delete-Respects = search (respects, visible_meta-Respects, delete_visible-Respects)
