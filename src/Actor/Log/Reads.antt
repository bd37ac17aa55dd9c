-- ===== src/Actor/Log/Reads.antt =====
-- GET of src/actor/read.rs and the `ReadRange` action as runs of the abstract log.
use rivet_durable_streams.Prelude.{
  ℕ, zero, suc, ◌⊎◌, inl, inr, Bool, true, false, ℤ, Text, Option, none, some, unwrap_or, min,
  Bool-cases, text_eq,
}
use rivet_durable_streams.Protocol.Http.{Request, Response}
use rivet_durable_streams.Store.Tables.{Meta, Db}
use rivet_durable_streams.Store.Range.{
  ReadBatch, max_read_rows, max_read_bytes, normalized, empty_batch,
}
use rivet_durable_streams.Actor.Types.{Env, ReadRange, ReadSnapshot}
use rivet_durable_streams.Actor.Exec.{pure}
use rivet_durable_streams.Actor.Read.{
  inherits, after_inherited, read_part, read_stitched, handle_read_range, snapshot_of,
  snapshot_visible, read_snapshot,
}
use rivet_durable_streams.Actor.Read.Query.{GetArguments, get_arguments}
use rivet_durable_streams.Actor.Read.Get.{
  Wake, changed, timed_out, stopping, Surroundings, start_sse, finish_read, read_changed,
  after_wait, first_read, get_visible, answer_get, handle_get,
}
use rivet_durable_streams.Actor.Log.Tables.{Evolves}
use rivet_durable_streams.Actor.Log.Steps.{
  Respects, bind-Respects, pure-Respects, get_db-Respects, pause-Respects, respects,
}
use rivet_durable_streams.Actor.Log.Lifecycle.{
  source_handle-Respects, visible_meta-Respects, touch_access-Respects,
}

module _ {watched : Text} (env : Env)
    (others : (n : ℕ) (db : Db) → Evolves watched db (env.during n db)) where
  after_inherited-Respects :
      (meta : Meta) (after upto : Option Text) (limit budget : ℕ) (inherited : ReadBatch)
      (found : Option Meta)
      → Respects watched (after_inherited env meta after upto limit budget inherited found)
  unfolding after_inherited
  after_inherited-Respects meta after upto limit budget inherited none = search respects
  after_inherited-Respects meta after upto limit budget inherited (some current) =
      search (respects, pause-Respects _ others)

  read_part-Respects :
      (meta : Meta) (after upto : Option Text) (limit budget : ℕ) (from : Option (Text × Text))
      → Respects watched (read_part env meta after upto limit budget from)
  unfolding read_part
  read_part-Respects meta after upto limit budget none = search respects
  read_part-Respects meta after upto limit budget (some (path, offset)) =
      search
        (respects, source_handle-Respects env, pause-Respects _ others, after_inherited-Respects)
        depth 12

  retried-Respects :
      (fuel : ℕ) (after upto : Option Text) (limit budget : ℕ)
      → ((meta : Meta) → Respects watched (read_stitched env fuel meta after upto limit budget))
      → (part : ReadBatch ⊎ Meta)
      → Respects {R = env.Rest} watched (elim part [
        | inl batch ↦ pure batch
        | inr current ↦ read_stitched env fuel current after upto limit budget
      ])
  retried-Respects fuel after upto limit budget again (inl batch) = pure-Respects batch
  retried-Respects fuel after upto limit budget again (inr current) = again current

  read_stitched-Respects :
      (fuel : ℕ) (meta : Meta) (after upto : Option Text) (limit budget : ℕ)
      → Respects watched (read_stitched env fuel meta after upto limit budget)
  unfolding read_stitched
  read_stitched-Respects zero meta after upto limit budget = search respects
  read_stitched-Respects (suc fuel) meta after upto limit budget =
      bind-Respects _ _
        (read_part-Respects meta (normalized after) upto (min limit max_read_rows)
          (min budget max_read_bytes) (inherits meta (normalized after)))
        (retried-Respects fuel after upto limit budget
          (λ current. read_stitched-Respects fuel current after upto limit budget))

  ranged-Respects :
      (fuel : ℕ) (action : ReadRange) (found : Option Meta)
      → Respects {R = env.Rest} watched (elim found [
        | none ↦ pure empty_batch
        | some meta ↦
            read_stitched env fuel meta action.after_offset
              (some action.cap_offset)
              (unwrap_or action.limit max_read_rows)
              (unwrap_or action.byte_budget max_read_bytes)
      ])
  ranged-Respects fuel action none = pure-Respects empty_batch
  ranged-Respects fuel action (some meta) = read_stitched-Respects fuel meta _ _ _ _

  pub handle_read_range-Respects :
      (fuel : ℕ) (action : ReadRange) → Respects watched (handle_read_range env fuel action)
  unfolding handle_read_range
  handle_read_range-Respects fuel action =
      bind-Respects _ _ get_db-Respects (λ db. ranged-Respects fuel action db.meta)

  snapshot_of-Respects :
      (meta : Meta) (batch : ReadBatch) (later : ℤ) (found : Option Meta)
      → Respects watched (snapshot_of env meta batch later found)
  unfolding snapshot_of
  snapshot_of-Respects meta batch later none = search respects
  snapshot_of-Respects meta batch later (some fresh) =
      elim (Bool-cases (text_eq fresh.generation meta.generation)) [
        | inl e ↦ rw e (search (respects, touch_access-Respects env later))
        | inr e ↦ rw e (pure-Respects none)
      ]

  snapshot_visible-Respects :
      (fuel : ℕ) (offset expected : Option Text) (later : ℤ) (found : Option Meta)
      → Respects watched (snapshot_visible env fuel offset expected later found)
  unfolding snapshot_visible
  snapshot_visible-Respects fuel offset expected later none = search respects
  snapshot_visible-Respects fuel offset expected later (some meta) =
      search (respects, pause-Respects _ others, read_stitched-Respects, snapshot_of-Respects) depth
        12

  read_snapshot-Respects :
      (fuel : ℕ) (free : Bool) (offset expected : Option Text) (now later : ℤ)
      → Respects watched (read_snapshot env fuel free offset expected now later)
  unfolding read_snapshot
  read_snapshot-Respects fuel false offset expected now later = search respects
  read_snapshot-Respects fuel true offset expected now later =
      search (respects, visible_meta-Respects env now, snapshot_visible-Respects)

  module _ (actor_id : Text) (around : Surroundings) where
    finish_read-Respects :
        (request : Request) (arguments : GetArguments) (snapshot : ReadSnapshot)
        → Respects watched (finish_read env actor_id around request arguments snapshot)
    unfolding finish_read
    finish_read-Respects request arguments snapshot = search respects

    read_changed-Respects :
        (request : Request) (arguments : GetArguments) (found : Option ReadSnapshot)
        → Respects watched (read_changed env actor_id around request arguments found)
    unfolding read_changed
    read_changed-Respects request arguments none = search respects
    read_changed-Respects request arguments (some snapshot) =
        finish_read-Respects request arguments snapshot

    after_wait-Respects :
        (fuel : ℕ) (request : Request) (arguments : GetArguments) (initial : Meta) (wake : Wake)
        → Respects watched (after_wait env actor_id around fuel request arguments initial wake)
    unfolding after_wait
    after_wait-Respects fuel request arguments initial changed =
        search (respects, read_snapshot-Respects, read_changed-Respects)
    after_wait-Respects fuel request arguments initial timed_out = search respects
    after_wait-Respects fuel request arguments initial stopping = search respects

    first_read-Respects :
        (fuel : ℕ) (request : Request) (arguments : GetArguments) (initial : Meta)
        (effective : Option Text) (found : Option ReadSnapshot)
        → Respects watched
            (first_read env actor_id around fuel request arguments initial effective found)
    unfolding first_read
    first_read-Respects fuel request arguments initial effective none = search respects
    first_read-Respects fuel request arguments initial effective (some snapshot) =
        search (respects, pause-Respects _ others, after_wait-Respects fuel, finish_read-Respects)

    get_visible-Respects :
        (fuel : ℕ) (request : Request) (arguments : GetArguments) (found : Option Meta)
        → Respects watched (get_visible env actor_id around fuel request arguments found)
    unfolding get_visible
    get_visible-Respects fuel request arguments none = search respects
    get_visible-Respects fuel request arguments (some initial) =
        search (respects, touch_access-Respects, read_snapshot-Respects, first_read-Respects fuel)
          depth 9

    start_sse-Respects :
        (arguments : GetArguments) → Respects watched (start_sse env actor_id around arguments)
    unfolding start_sse
    start_sse-Respects arguments = search (respects, visible_meta-Respects)

    answer_get-Respects :
        (fuel : ℕ) (request : Request) (arguments : Response ⊎ GetArguments)
        → Respects watched (answer_get env actor_id around fuel request arguments)
    unfolding answer_get
    answer_get-Respects fuel request (inl refusal) = search respects
    answer_get-Respects fuel request (inr arguments) =
        search (respects, start_sse-Respects, visible_meta-Respects, get_visible-Respects)

    pub handle_get-Respects :
        (fuel : ℕ) (request : Request)
        → Respects watched (handle_get env actor_id around fuel request)
    unfolding handle_get
    handle_get-Respects fuel request = answer_get-Respects fuel request (get_arguments request)
