-- ===== src/Actor/Log/Forks.antt =====
-- `create_fork` of src/actor/fork.rs as runs of the abstract log.
use rivet_durable_streams.Prelude.{
  ℕ, ◌≡◌, ◌≢◌, refl, ap, ◌∙◌, ◌⊎◌, inl, inr, Bool, Text, Bytes, Option, none, some, Result, ok, err,
  Bool-cases, Option-cases, text_eq,
}
use rivet_durable_streams.Protocol.Http.{Response}
use rivet_durable_streams.Store.Tables.{Meta, Db}
use rivet_durable_streams.Store.Forks.{put_fork_intent, delete_fork_intent, enqueue_gc_release}
use rivet_durable_streams.Actor.Types.{Env, World, ForkAcquireResult}
use rivet_durable_streams.Actor.Exec.{◌>>=◌}
use rivet_durable_streams.Actor.Fork.Create.{ForkCreateOptions, Grant, fork_meta, creation_tx}
use rivet_durable_streams.Actor.Fork.Create.Run.{
  release_acquired, edge_of, read_prefix, schedule_created, created_answer, created, give_up,
  settle_creation, try_transact, create_with, create_after_prefix, refuse_fork, create_acquired,
  acquire_and_create, create_fork,
}
use rivet_durable_streams.Actor.Fork.Duty.{creation_tx_parts}
use rivet_durable_streams.Actor.Log.{stream, here}
use rivet_durable_streams.Actor.Log.Tables.{Evolves, create-Evolves}
use rivet_durable_streams.Actor.Log.Steps.{
  Respects, commit-Respects, bind-Respects, bind_drawn, respects,
}
use rivet_durable_streams.Actor.Log.Lifecycle.{
  flush_gc_releases-Respects, schedule_expiry-Respects, source_handle-Respects,
}

creation_tx-Evolves :
    {watched : Text} (generation : Text) (options : ForkCreateOptions) (grant : Grant)
    (prefix payload : Bytes) (db : Db) (offset : Text) (end : Db)
    → generation ≢ watched
    → creation_tx generation options grant prefix payload db ≡ ok (offset, end)
    → Evolves watched db end
unfolding creation_tx
creation_tx-Evolves generation options grant prefix payload db offset end fresh h =
    elim (Option-cases db.meta) [
      | inl e ↦
          let (before, next, k, same) =
            creation_tx_parts generation options grant prefix payload db end offset e h in
          create-Evolves db end
            (record (fork_meta generation options grant) { current_offset = next }) e
            (ap (λ (d : Db). d.meta) same ∙ (unfold delete_fork_intent in k))
            (unfold fork_meta in fresh)
      | inr (found, e) ↦ let k = rw (e, creation_tx) at h in cc
    ]

owed-Evolves :
    {watched : Text} (edge_id path : Text) (gen : Option Text) (db : Db)
    → Evolves watched db (delete_fork_intent edge_id (enqueue_gc_release edge_id path gen db))
unfolding stream delete_fork_intent enqueue_gc_release
owed-Evolves edge_id path gen db = here

armed-Evolves :
    {watched : Text} (edge_id path params_key : Text) (db : Db)
    → Evolves watched db (put_fork_intent edge_id path params_key db)
unfolding stream put_fork_intent
armed-Evolves edge_id path params_key db = here

forgotten-Evolves :
    {watched : Text} (edge_id : Text) (db : Db) → Evolves watched db (delete_fork_intent edge_id db)
unfolding stream delete_fork_intent
forgotten-Evolves edge_id db = here

abbrev tried : {R A : Type 0} → World R → Result (A × Db) → Result (Result A) × World R
tried w r = elim r [ ok (a, db) ↦ (ok (ok a), record w { db = db }) | err e ↦ (ok (err e), w) ]

module _ {watched : Text} (env : Env) where
  try_transact-Respects :
      {A : Type 0} (body : Db → Result (A × Db))
      → ((db : Db) (a : A) (end : Db) → body db ≡ ok (a, end) → Evolves watched db end)
      → Respects watched (try_transact env body)
  unfolding try_transact
  try_transact-Respects {A} body h = record { at = λ w. record { run = go w (body w.db) refl } }
    where
      go :
          (w : World env.Rest) (r : Result (A × Db))
          → body w.db ≡ r
          → Evolves watched w.db (tried w r).1.db
      go w (ok (a, end)) e = h w.db a end e
      go w (err x) e = here

  release_acquired-Respects :
      (edge_id path : Text) (gen : Option Text)
      → Respects watched (release_acquired env edge_id path gen)
  unfolding release_acquired
  release_acquired-Respects edge_id path gen =
      search
        (respects, commit-Respects _ (owed-Evolves edge_id path gen), flush_gc_releases-Respects)

  edge_of-Respects :
      (path params_key : Text) (found : Option Text)
      → Respects watched (edge_of env path params_key found)
  unfolding edge_of
  edge_of-Respects path params_key (some edge_id) = search respects
  edge_of-Respects path params_key none =
      search
        (
          respects,
          λ (edge_id : Text).
              commit-Respects {R = env.Rest} {watched = watched} _
                (armed-Evolves edge_id path params_key),
        )
        depth 9

  read_prefix-Respects :
      (options : ForkCreateOptions) (grant : Grant) (sub_offset : Option ℕ)
      → Respects watched (read_prefix env options grant sub_offset)
  unfolding read_prefix
  read_prefix-Respects options grant none = search respects
  read_prefix-Respects options grant (some n) =
      search (respects, source_handle-Respects env) depth 9

  schedule_created-Respects : (found : Option Meta) → Respects watched (schedule_created env found)
  unfolding schedule_created
  schedule_created-Respects none = search respects
  schedule_created-Respects (some meta) = schedule_expiry-Respects env meta

  created_answer-Respects :
      (content_type offset : Text) (closed : Bool)
      → Respects watched (created_answer env content_type offset closed)
  unfolding created_answer
  created_answer-Respects content_type offset closed = record { at = λ w. record { run = here } }

  pub created-Respects :
      (content_type offset : Text) (closed : Bool)
      → Respects watched (created env content_type offset closed)
  unfolding created
  created-Respects content_type offset closed =
      search (respects, schedule_created-Respects, created_answer-Respects) depth 9

  give_up-Respects :
      (options : ForkCreateOptions) (grant : Grant) (answer : Response)
      → Respects watched (give_up env options grant answer)
  unfolding give_up
  give_up-Respects options grant answer = search (respects, release_acquired-Respects)

  settle_creation-Respects :
      (options : ForkCreateOptions) (grant : Grant) (result : Result Text)
      → Respects watched (settle_creation env options grant result)
  unfolding settle_creation
  settle_creation-Respects options grant (ok offset) = created-Respects _ _ _
  settle_creation-Respects options grant (err e) = search (respects, release_acquired-Respects)

module _ {watched : Text} (env : Env) (fresh : (n : ℕ) → env.platform.uuid n ≢ watched) where
  create_with-Respects :
      (options : ForkCreateOptions) (grant : Grant) (prefix : Bytes) (payload : Response ⊎ Bytes)
      → Respects watched (create_with env options grant prefix payload)
  unfolding create_with
  create_with-Respects options grant prefix (inl answer) = give_up-Respects env options grant answer
  create_with-Respects options grant prefix (inr payload) =
      bind_drawn env.platform.uuid
        (λ generation.
          try_transact env (creation_tx generation options grant prefix payload)
          >>= settle_creation env options grant)
        λ n.
          bind-Respects _ _
            (try_transact-Respects env _ (λ (db : Db) (offset : Text) (end : Db).
              creation_tx-Evolves _ options grant prefix payload db offset end (fresh n)))
            (settle_creation-Respects env options grant)

  create_after_prefix-Respects :
      (options : ForkCreateOptions) (grant : Grant) (prefix : Option Bytes)
      → Respects watched (create_after_prefix env options grant prefix)
  unfolding create_after_prefix
  create_after_prefix-Respects options grant none = give_up-Respects env options grant _
  create_after_prefix-Respects options grant (some prefix) =
      create_with-Respects options grant prefix _

  refuse_fork-Respects :
      (edge_id : Text) (e : Option Text) → Respects watched (refuse_fork env edge_id e)
  unfolding refuse_fork
  refuse_fork-Respects edge_id e = search (respects, commit-Respects _ (forgotten-Evolves edge_id))

  create_acquired-Respects :
      (options : ForkCreateOptions) (edge_id : Text) (acquired : ForkAcquireResult)
      → Respects watched (create_acquired env options edge_id acquired)
  unfolding create_acquired
  create_acquired-Respects options edge_id acquired = elim (Bool-cases acquired.is_ok) [
    | inl e ↦ rw e (search (respects, read_prefix-Respects env, create_after_prefix-Respects))
    | inr e ↦ rw e (refuse_fork-Respects edge_id acquired.error)
  ]

  acquire_and_create-Respects :
      (options : ForkCreateOptions) → Respects watched (acquire_and_create env options)
  unfolding acquire_and_create
  acquire_and_create-Respects options =
      search (respects, edge_of-Respects env, source_handle-Respects env, create_acquired-Respects)
        depth 14

  pub create_fork-Respects :
      (options : ForkCreateOptions) → Respects watched (create_fork env options)
  unfolding create_fork
  create_fork-Respects options = record {
    at = λ w. elim (Bool-cases (text_eq options.parent_path w.path)) [
      | inl e ↦ record { run = rw e here }
      | inr e ↦ record { run = rw e ((acquire_and_create-Respects options).at w).run }
    ];
  }
