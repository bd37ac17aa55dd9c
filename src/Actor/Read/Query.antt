-- ===== src/Actor/Read/Query.antt =====
-- src/actor/read.rs and `query_values` of src/actor.rs: what a GET asks for.
use rivet_durable_streams.Prelude.{
  not, ◌⊎◌, inl, inr, Text, List, [], ◌∷◌, Option, none, some, if◌then◌else◌, is_empty, opt_eq,
  text_eq, codes, first,
}
use rivet_durable_streams.Protocol.Offset.{validate_offset}
use rivet_durable_streams.Protocol.Http.{Request, Response, text_response}
use rivet_durable_streams.Actor.Write.{reply}
use rivet_durable_streams.Actor.Read.Reply.{is_long_poll}

-- The values of a query's parameter, in their order.
unfoldable pub query_values : Text → List (Text × Text) → List Text
query_values name [] = []
query_values name ((key, value) ∷ rest) =
    let others = query_values name rest in if text_eq key name then value ∷ others else others

-- What a GET asks for: the offset, the live mode and the cursor.
pub record GetArguments : Type 0 where
  pub offset : Option Text
  pub live : Option Text
  pub cursor : Option Text

unfoldable pub check_offset : Option Text → Option Text → Option Text → Response ⊎ GetArguments
unfolding validate_offset text_response is_long_poll
check_offset none live cursor =
    if is_long_poll live
    then inl (reply 400 "Long-poll requires offset parameter")
    else if opt_eq live (some (codes "sse"))
    then inl (reply 400 "SSE requires offset parameter")
    else inr (record { offset = none; live = live; cursor = cursor })
check_offset (some offset) live cursor =
    if is_empty offset
    then inl (reply 400 "Empty offset parameter")
    else if not (validate_offset offset)
    then inl (reply 400 "Invalid offset format")
    else inr (record { offset = some offset; live = live; cursor = cursor })

unfoldable pub get_arguments : Request → Response ⊎ GetArguments
unfolding query_values check_offset text_response
get_arguments request =
    let live = first (query_values (codes "live") request.query) in
    let cursor = first (query_values (codes "cursor") request.query) in
    elim (query_values (codes "offset") request.query) [
      | [] ↦ check_offset none live cursor
      | offset ∷ [] ↦ check_offset (some offset) live cursor
      | _ ∷ _ ∷ _ ↦ inl (reply 400 "Multiple offset parameters not allowed")
    ]
