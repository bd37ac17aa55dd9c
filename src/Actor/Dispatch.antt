-- ===== src/Actor/Dispatch.antt =====
-- src/actor.rs: the actor's callbacks, and the actions that other actors call.
use rivet_durable_streams.Prelude.{
  ℕ, Bool, true, false, ◌&&◌, ℤ, Text, [], ◌∷◌, is_some_and, text_eq, codes, first,
}
use rivet_durable_streams.Protocol.Http.{Method, Request, response}
use rivet_durable_streams.Protocol.Http.Method.{get, head, put, post, delete, other}
use rivet_durable_streams.Store.Range.{ReadBatch}
use rivet_durable_streams.Actor.Types.{Env, ForkAcquire, ForkAcquireResult, ForkRelease, ReadRange}
use rivet_durable_streams.Actor.Exec.{Exec, pure, ◌>>=◌}
use rivet_durable_streams.Actor.Lifecycle.{handle_head, handle_delete}
use rivet_durable_streams.Actor.Recovery.{run_maintenance}
use rivet_durable_streams.Actor.Fork.{fork_acquire, fork_release}
use rivet_durable_streams.Actor.Write.Post.{handle_post}
use rivet_durable_streams.Actor.Write.Put.Requests.{handle_put}
use rivet_durable_streams.Actor.Read.{handle_read_range}
use rivet_durable_streams.Actor.Read.Query.{query_values}
use rivet_durable_streams.Actor.Read.Get.{GetReply, plain, Surroundings, handle_get}

-- `HttpCallbackClass`
pub data CallbackClass : Type 0 where
  live standard : CallbackClass

unfoldable pub is_get : Method → Bool
is_get get = true
is_get _ = false

unfoldable pub class_of : Bool → CallbackClass
class_of true = live
class_of false = standard

unfoldable pub classify_http_request : Request → CallbackClass
unfolding is_get class_of query_values
classify_http_request request = class_of (
    is_get request.method
    && is_some_and (first (query_values (codes "live") request.query))
        (λ value. text_eq value (codes "sse")))

-- The actions of the `Action` type; `Maintenance` is also what an alarm calls.
pub data Action : Type 0 where
  acquire : ForkAcquire → Action
  release : ForkRelease → Action
  read_range : ReadRange → Action
  maintenance : Action

pub data ActionReply : Type 0 where
  acquired : ForkAcquireResult → ActionReply
  batch : ReadBatch → ActionReply
  done : ActionReply

-- `fuel` is that of the reads, and `now` the time at which a handler asks for it.
module _ (env : Env) (fuel : ℕ) (now : ℤ) where
  unfoldable pub on_method : Text → Surroundings → Request → Method → Exec env.Rest GetReply
  unfolding handle_put handle_post handle_get handle_head handle_delete response
  on_method actor_id around request put = do
    answer ← handle_put env request now
    pure (plain answer)
  on_method actor_id around request post = do
    answer ← handle_post env request now
    pure (plain answer)
  on_method actor_id around request get = handle_get env actor_id around fuel request
  on_method actor_id around request head = do
    answer ← handle_head env now actor_id
    pure (plain answer)
  on_method actor_id around request delete = do answer ← handle_delete env now; pure (plain answer)
  on_method actor_id around request other =
      pure (plain (response 405 (("allow", codes "GET, POST, PUT, DELETE, HEAD, OPTIONS") ∷ []) []))

  unfoldable pub on_fetch_response : Text → Surroundings → Request → Exec env.Rest GetReply
  unfolding on_method
  on_fetch_response actor_id around request = on_method actor_id around request request.method

  unfoldable pub on_start : Exec env.Rest (Unit {0})
  unfolding run_maintenance
  on_start = run_maintenance env now

  -- The `Handles` of the actor.
  unfoldable pub handle_action : Action → Exec env.Rest ActionReply
  unfolding fork_acquire fork_release handle_read_range run_maintenance
  handle_action (acquire action) = do result ← fork_acquire env now action; pure (acquired result)
  handle_action (release action) = do _ ← fork_release env action; pure done
  handle_action (read_range action) = do
    result ← handle_read_range env fuel action
    pure (batch result)
  handle_action maintenance = do _ ← run_maintenance env now; pure done
