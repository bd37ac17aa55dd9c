-- ===== src/Actor/Fork/Create/Run.antt =====
-- src/actor/fork.rs: how `create_fork` acquires a reference, reads the prefix and creates the fork.
use rivet_durable_streams.Prelude.{
  ℕ, Bool, true, false, not, ◌⊎◌, inl, inr, Text, Bytes, [], ◌∷◌, ◌++◌, Option, none, some, ltb,
  leb, if◌then◌else◌, is_empty, filter_option, text_eq, codes, length, take, first, Result, ok, err,
}
use rivet_durable_streams.Protocol.Json.{pop_comma, write_values}
use rivet_durable_streams.Protocol.Http.{Response, response, text_response}
use rivet_durable_streams.Store.Tables.{Meta, Message, Db}
use rivet_durable_streams.Store.Range.{max_read_bytes}
use rivet_durable_streams.Store.Forks.{
  get_fork_intent, put_fork_intent, delete_fork_intent, enqueue_gc_release,
}
use rivet_durable_streams.Actor.Types.{Env, ForkAcquireResult, maintenance_retry_ms}
use rivet_durable_streams.Actor.Exec.{
  Exec, pure, raise, lift, ◌>>=◌, ◌>>◌, get_db, commit, notify_change, call, draw,
}
use rivet_durable_streams.Actor.Maintenance.{
  schedule_maintenance_after, schedule_expiry, flush_gc_releases, source_handle,
}
use rivet_durable_streams.Actor.Write.{reply, json_payload, is_json}
use rivet_durable_streams.Actor.Fork.Create.{
  max_offset_cap, ForkCreateOptions, Grant, grant_of, refusal, creation_tx,
}

module _ (env : Env) where
  unfoldable pub release_acquired : Text → Text → Option Text → Exec env.Rest (Unit {0})
  unfolding schedule_maintenance_after commit enqueue_gc_release delete_fork_intent
      flush_gc_releases
  release_acquired edge_id parent_path source_generation = do
    schedule_maintenance_after env maintenance_retry_ms
    commit (λ db.
        delete_fork_intent edge_id (enqueue_gc_release edge_id parent_path source_generation db))
    flush_gc_releases env

  -- The intent's edge: the recorded one, or a new one, which is armed before it is recorded.
  unfoldable pub edge_of : Text → Text → Option Text → Exec env.Rest Text
  unfolding draw schedule_maintenance_after commit put_fork_intent
  edge_of parent_path params_key (some edge_id) = pure edge_id
  edge_of parent_path params_key none = do
    edge_id ← draw env.platform.uuid
    schedule_maintenance_after env maintenance_retry_ms
    commit (put_fork_intent edge_id parent_path params_key)
    pure edge_id

  unfoldable pub json_prefix : ℕ → Bytes → Option Bytes
  unfolding pop_comma write_values
  json_prefix sub_offset fragment =
      elim (env.platform.from_slice (b'[' ∷ pop_comma fragment ++ b']' ∷ [])) [
        | none ↦ none
        | some parsed ↦ elim (env.platform.as_array parsed) [
          | none ↦ none
          | some values ↦
              if leb sub_offset (length values)
              then some (write_values env.platform (take sub_offset values))
              else none
        ]
      ]

  -- The part of the first message past the fork that the fork begins with.
  unfoldable pub prefix_of : Bool → ℕ → Option Message → Option Bytes
  unfolding json_prefix
  prefix_of json sub_offset none = none
  prefix_of true sub_offset (some message) = json_prefix sub_offset message.content
  prefix_of false sub_offset (some message) =
      if leb sub_offset (length message.content)
      then some (take sub_offset message.content)
      else none

  unfoldable pub read_prefix : ForkCreateOptions → Grant → Option ℕ → Exec env.Rest (Option Bytes)
  unfolding source_handle call prefix_of is_json
  read_prefix options grant none = pure (some [])
  read_prefix options grant (some sub_offset) = do
    handle ← source_handle env options.parent_path
    reply ← call (
        env.read_range handle (record {
          after_offset = some grant.fork_offset;
          cap_offset = max_offset_cap;
          limit = some 1;
          byte_budget = some max_read_bytes;
        }))
    batch ← lift reply
    pure (prefix_of (is_json (some grant.content_type)) sub_offset (first batch.messages))

  unfoldable pub fork_payload : Bytes → Grant → Response ⊎ Bytes
  unfolding is_json json_payload
  fork_payload body grant =
      if is_empty body
      then inr []
      else if is_json (some grant.content_type)
      then json_payload env body true
      else inr body

  unfoldable pub schedule_created : Option Meta → Exec env.Rest (Unit {0})
  unfolding schedule_expiry
  schedule_created none = pure tt
  schedule_created (some meta) = schedule_expiry env meta

  -- The answer of a create.
  unfoldable pub created_answer : Text → Text → Bool → Exec env.Rest Response
  unfolding response
  created_answer content_type current_offset closed w = (
    ok (
        response 201
          (("content-type", content_type)
            ∷ ("stream-next-offset", current_offset)
            ∷ ("location", w.path)
            ∷ (if closed then ("stream-closed", codes "true") ∷ [] else []))
          []),
    w,
  )

  unfoldable pub created : Text → Text → Bool → Exec env.Rest Response
  unfolding notify_change schedule_created created_answer
  created content_type current_offset closed = do
    notify_change
    db ← get_db
    schedule_created db.meta
    created_answer content_type current_offset closed

  unfoldable pub give_up : ForkCreateOptions → Grant → Response → Exec env.Rest Response
  unfolding release_acquired
  give_up options grant answer = do
    release_acquired grant.edge_id options.parent_path (some grant.source_generation)
    pure answer

  -- A creation that fails gives the reference back before it reports the error.
  unfoldable pub settle_creation : ForkCreateOptions → Grant → Result Text → Exec env.Rest Response
  unfolding created release_acquired
  settle_creation options grant (ok current_offset) =
      created grant.content_type current_offset options.closed
  settle_creation options grant (err e) = do
    release_acquired grant.edge_id options.parent_path (some grant.source_generation)
    raise e

  unfoldable pub try_transact : {A : Type 0} → (Db → Result (A × Db)) → Exec env.Rest (Result A)
  try_transact body w = elim (body w.db) [
    | ok (a, db) ↦ (ok (ok a), record w { db = db })
    | err e ↦ (ok (err e), w)
  ]

  unfoldable pub create_with :
      ForkCreateOptions → Grant → Bytes → Response ⊎ Bytes → Exec env.Rest Response
  unfolding draw try_transact creation_tx settle_creation give_up
  create_with options grant prefix (inl answer) = give_up options grant answer
  create_with options grant prefix (inr payload) = do
    generation ← draw env.platform.uuid
    result ← try_transact (creation_tx generation options grant prefix payload)
    settle_creation options grant result

  unfoldable pub create_after_prefix :
      ForkCreateOptions → Grant → Option Bytes → Exec env.Rest Response
  unfolding create_with fork_payload give_up
  create_after_prefix options grant none =
      give_up options grant (reply 400 "Invalid fork sub-offset")
  create_after_prefix options grant (some prefix) =
      create_with options grant prefix (fork_payload options.body grant)

  -- A fork that the source refused keeps no intent.
  unfoldable pub refuse_fork : Text → Option Text → Exec env.Rest Response
  unfolding commit delete_fork_intent refusal
  refuse_fork edge_id error = do commit (delete_fork_intent edge_id); lift (refusal error)

  unfoldable pub create_acquired :
      ForkCreateOptions → Text → ForkAcquireResult → Exec env.Rest Response
  unfolding grant_of read_prefix create_after_prefix refuse_fork
  create_acquired options edge_id acquired =
      if not acquired.is_ok then refuse_fork edge_id acquired.error else do
        grant ← lift (grant_of edge_id options acquired)
        prefix ← read_prefix options grant (filter_option (ltb 0) options.fork_sub_offset)
        create_after_prefix options grant prefix

  unfoldable pub acquire_and_create : ForkCreateOptions → Exec env.Rest Response
  unfolding get_fork_intent edge_of source_handle call create_acquired
  acquire_and_create options = do
    let params_key = env.platform.params_to_text (options.parent_path, options.fork_offset)
    db ← get_db
    edge_id ← edge_of options.parent_path params_key (get_fork_intent params_key db)
    handle ← source_handle env options.parent_path
    reply ← call (
        env.fork_acquire handle (record {
          edge_id = edge_id;
          fork_offset = options.fork_offset;
          content_type_provided = options.content_type;
        }))
    acquired ← lift reply
    create_acquired options edge_id acquired

  unfoldable pub create_fork : ForkCreateOptions → Exec env.Rest Response
  unfolding acquire_and_create text_response
  create_fork options w =
      if text_eq options.parent_path w.path
      then pure (reply 404 "Source stream not found") w
      else acquire_and_create options w
