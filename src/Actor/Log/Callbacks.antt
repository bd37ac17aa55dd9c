-- ===== src/Actor/Log/Callbacks.antt =====
-- Every callback of src/actor.rs, one after another, as a run of the abstract log.
use rivet_durable_streams.Prelude.{ℕ, ◌≡◌, ◌≢◌, some, ℤ, Text, List, [], ◌∷◌}
use rivet_durable_streams.Protocol.Http.{Method, Request}
use rivet_durable_streams.Protocol.Http.Method.{get, head, put, post, delete, other}
use rivet_durable_streams.Store.Tables.{Db}
use rivet_durable_streams.Actor.Types.{Env, World}
use rivet_durable_streams.Actor.Read.Get.{Surroundings}
use rivet_durable_streams.Actor.Dispatch.{
  Action, acquire, release, read_range, maintenance, on_method, on_fetch_response, on_start,
  handle_action,
}
use rivet_durable_streams.Actor.Log.{Stream, stream, Keeps, here, Run-Keeps}
use rivet_durable_streams.Actor.Log.Tables.{Evolves, join}
use rivet_durable_streams.Actor.Log.Steps.{Respects, respects}
use rivet_durable_streams.Actor.Log.Lifecycle.{handle_head-Respects, handle_delete-Respects}
use rivet_durable_streams.Actor.Log.Actions.{
  fork_acquire-Respects, fork_release-Respects, run_maintenance-Respects,
}
use rivet_durable_streams.Actor.Log.Posts.{handle_post-Respects}
use rivet_durable_streams.Actor.Log.Puts.{handle_put-Respects}
use rivet_durable_streams.Actor.Log.Reads.{handle_get-Respects, handle_read_range-Respects}

-- What the actor's host asks of it, and when.
pub data Event : Type 0 where
  start : ℤ → Event
  fetch : ℤ → Text → Surroundings → Request → Event
  action : ℤ → Action → Event

module _ (env : Env) (fuel : ℕ) where
  unfoldable pub handle_event : Event → World env.Rest → World env.Rest
  unfolding on_start on_fetch_response handle_action
  handle_event (start now) w = (on_start env fuel now w).1
  handle_event (fetch now actor_id around request) w =
      (on_fetch_response env fuel now actor_id around request w).1
  handle_event (action now a) w = (handle_action env fuel now a w).1

  unfoldable pub handle_events : List Event → World env.Rest → World env.Rest
  unfolding handle_event
  handle_events [] w = w
  handle_events (event ∷ events) w = handle_events events (handle_event event w)

  module _ {watched : Text} (others : (n : ℕ) (db : Db) → Evolves watched db (env.during n db))
      (fresh : (n : ℕ) → env.platform.uuid n ≢ watched) where
    on_method-Respects :
        (now : ℤ) (actor_id : Text) (around : Surroundings) (request : Request) (method : Method)
        → Respects watched (on_method env fuel now actor_id around request method)
    unfolding on_method
    on_method-Respects now actor_id around request put =
        search (respects, handle_put-Respects env fresh)
    on_method-Respects now actor_id around request post =
        search (respects, handle_post-Respects env)
    on_method-Respects now actor_id around request get =
        handle_get-Respects env others actor_id around fuel request
    on_method-Respects now actor_id around request head =
        search (respects, handle_head-Respects env)
    on_method-Respects now actor_id around request delete =
        search (respects, handle_delete-Respects env)
    on_method-Respects now actor_id around request other = search respects

    handle_action-Respects :
        (now : ℤ) (a : Action) → Respects watched (handle_action env fuel now a)
    unfolding handle_action
    handle_action-Respects now (acquire a) = search (respects, fork_acquire-Respects env)
    handle_action-Respects now (release a) = search (respects, fork_release-Respects env)
    handle_action-Respects now (read_range a) =
        search (respects, handle_read_range-Respects env others)
    handle_action-Respects now maintenance = search (respects, run_maintenance-Respects env others)

    handle_event-Evolves :
        (event : Event) (w : World env.Rest) → Evolves watched w.db (handle_event event w).db
    unfolding handle_event on_fetch_response on_start
    handle_event-Evolves (start now) w = ((run_maintenance-Respects env others now).at w).run
    handle_event-Evolves (fetch now actor_id around request) w =
        ((on_method-Respects now actor_id around request request.method).at w).run
    handle_event-Evolves (action now a) w = ((handle_action-Respects now a).at w).run

    handle_events-Evolves :
        (events : List Event) (w : World env.Rest)
        → Evolves watched w.db (handle_events events w).db
    unfolding handle_events
    handle_events-Evolves [] w = here
    handle_events-Evolves (event ∷ events) w =
        join (handle_event-Evolves event w) (handle_events-Evolves events (handle_event event w))

  -- A generation of a stream is an append-only log. Whatever requests, actions and starts the actor
  -- handles one after another, at any times, also those that fail: if it then holds a stream of the
  -- generation that it held before, that stream has every message that it had, under the same offset
  -- and unchanged, and if it was closed, it is closed and has no other message. Conditions: no
  -- identifier that the actor draws is that generation, and what other callbacks do to the tables
  -- while a read or the maintenance waits are steps that the log may take.
  pub handle_events-refines :
      (before after : Stream) (events : List Event) (w : World env.Rest)
      → ((n : ℕ) (db : Db) → Evolves before.generation db (env.during n db))
      → ((n : ℕ) → env.platform.uuid n ≢ before.generation)
      → stream w.db ≡ some before
      → stream (handle_events events w).db ≡ some after
      → after.generation ≡ before.generation
      → Keeps before after
  handle_events-refines before after events w others fresh held holds same =
      let run = handle_events-Evolves others fresh events w in
      Run-Keeps before after (rw (held, holds) at run) same
