-- ===== src/Actor/Write/Put.antt =====
-- src/actor/write.rs: the transaction of `handle_put`, and the PUT of a stream that is there.
pub mod Creates
pub mod Requests
use rivet_durable_streams.Prelude.{
  ℕ, Bool, true, false, not, ◌&&◌, ◌==◌, ◌⊎◌, inl, inr, ℤ, pos, pos_part, neg_part, Text, Bytes, [],
  ◌∷◌, Option, none, some, if◌then◌else◌, is_empty, is_none, is_some, is_none_or, unwrap_or, opt_eq,
  text_eq, codes, Result, ok, err,
}
use rivet_durable_streams.Protocol.Offset.{zero_offset}
use rivet_durable_streams.Protocol.Content.{normalize_content_type}
use rivet_durable_streams.Protocol.Http.{Response, response}
use rivet_durable_streams.Store.Tables.{Meta, Db}
use rivet_durable_streams.Store.Meta.{new_meta, create_meta}
use rivet_durable_streams.Actor.Types.{Env}
use rivet_durable_streams.Actor.Exec.{Exec, pure, ◌>>=◌, transact, draw}
use rivet_durable_streams.Actor.Lifecycle.{visible_meta}
use rivet_durable_streams.Actor.Fork.Create.{append_nonempty}
use rivet_durable_streams.Actor.Fork.Create.Run.{create_fork, created}
use rivet_durable_streams.Actor.Write.{reply, json_payload, is_json}

-- The headers of a PUT, once they are valid.
pub record PutOptions : Type 0 where
  pub forked_from : Option Text
  pub fork_offset : Option Text
  pub fork_sub_offset : Option ℕ
  pub content_type : Option Text
  pub ttl_seconds : Option ℤ
  pub expires_at : Option Text
  pub create_closed : Bool

-- An optional number; `none` is a text that is no number.
unfoldable pub optional_number : (Text → Option ℕ) → Option Text → Option (Option ℕ)
optional_number parse none = some none
optional_number parse (some value) = elim (parse value) [ none ↦ none | some n ↦ some (some n) ]

unfoldable pub as_seconds : Option ℕ → Option ℤ
as_seconds none = none
as_seconds (some n) = some (pos n)

abbrev pub opt_int_eq : Option ℤ → Option ℤ → Bool
opt_int_eq none none = true
opt_int_eq (some a) (some b) = pos_part a == pos_part b && neg_part a == neg_part b
opt_int_eq none (some b) = false
opt_int_eq (some a) none = false

abbrev pub bool_eq : Bool → Bool → Bool
bool_eq true b = b
bool_eq false b = not b

unfoldable pub content_type_matches : PutOptions → Meta → Bool
unfolding normalize_content_type
content_type_matches options existing =
    if is_some options.forked_from
      && is_none options.content_type
      && opt_eq options.forked_from existing.forked_from
    then true
    else text_eq (normalize_content_type options.content_type)
        (normalize_content_type existing.content_type)

-- Whether a PUT asks for the stream that is there.
unfoldable pub config_matches : PutOptions → Meta → Bool
unfolding content_type_matches
config_matches options existing =
    content_type_matches options existing
    && opt_int_eq options.ttl_seconds existing.ttl_seconds
    && opt_eq options.expires_at existing.expires_at
    && bool_eq options.create_closed existing.closed
    && opt_eq options.forked_from existing.forked_from
    && is_none_or options.fork_offset (λ offset. opt_eq (some offset) existing.fork_offset)
    && unwrap_or options.fork_sub_offset 0 == pos_part (unwrap_or existing.fork_sub_offset (pos 0))

unfoldable pub existing_answer : PutOptions → Meta → Response
unfolding config_matches response
existing_answer options existing =
    if existing.soft_deleted
    then reply 409
        "stream was deleted but still has active forks — path cannot be reused until all forks are removed"
    else if not (config_matches options existing)
    then reply 409 "Stream already exists with different configuration"
    else response 200
        (("content-type", unwrap_or existing.content_type (codes "application/octet-stream"))
          ∷ ("stream-next-offset", existing.current_offset)
          ∷ (if existing.closed then ("stream-closed", codes "true") ∷ [] else []))
        []

unfoldable pub resolved_content_type : PutOptions → Text
resolved_content_type options = unwrap_or options.content_type (codes "application/octet-stream")

unfoldable pub put_meta : Text → PutOptions → ℤ → Meta
unfolding new_meta resolved_content_type
put_meta generation options now =
    new_meta generation (some (resolved_content_type options)) options.ttl_seconds
      options.expires_at options.create_closed now none none none none none

-- The transaction of a create: `none` where the stream turns out to be there.
unfoldable pub put_tx : Meta → Bytes → ℤ → Db → Result (Option Text × Db)
unfolding create_meta append_nonempty
put_tx meta payload now db = elim db.meta [
  | some _ ↦ ok (none, db)
  | none ↦ elim (create_meta meta db) [
    | err e ↦ err e
    | ok fresh ↦ elim (append_nonempty zero_offset payload now fresh) [
      | err e ↦ err e
      | ok (current_offset, after) ↦ ok (some current_offset, after)
    ]
  ]
]

module _ (env : Env) where
  unfoldable pub settle_put : PutOptions → Option Text → Exec env.Rest Response
  unfolding created
  settle_put options none = pure (reply 409 "Stream already exists")
  settle_put options (some current_offset) =
      created env (resolved_content_type options) current_offset options.create_closed

  unfoldable pub put_payload : PutOptions → Bytes → Response ⊎ Bytes
  unfolding is_json json_payload resolved_content_type
  put_payload options body =
      if is_empty body
      then inr []
      else if is_json (some (resolved_content_type options))
      then json_payload env body true
      else inr body

  unfoldable pub put_bytes : PutOptions → ℤ → Response ⊎ Bytes → Exec env.Rest Response
  unfolding draw transact put_tx settle_put put_meta
  put_bytes options now (inl answer) = pure answer
  put_bytes options now (inr payload) = do
    generation ← draw env.platform.uuid
    offset ← transact (put_tx (put_meta generation options now) payload now)
    settle_put options offset

  unfoldable pub put_new : PutOptions → Bytes → ℤ → Option Text → Exec env.Rest Response
  unfolding create_fork put_bytes put_payload
  put_new options body now none = put_bytes options now (put_payload options body)
  put_new options body now (some parent_path) = create_fork env (record {
    parent_path = parent_path;
    fork_offset = options.fork_offset;
    fork_sub_offset = options.fork_sub_offset;
    content_type = options.content_type;
    ttl_seconds = options.ttl_seconds;
    expires_at = options.expires_at;
    closed = options.create_closed;
    body = body;
    now_ms = now;
  })

  unfoldable pub put_visible : PutOptions → Bytes → ℤ → Option Meta → Exec env.Rest Response
  unfolding put_new existing_answer
  put_visible options body now none = put_new options body now options.forked_from
  put_visible options body now (some existing) = pure (existing_answer options existing)

  unfoldable pub put_parsed : Bytes → ℤ → Response ⊎ PutOptions → Exec env.Rest Response
  unfolding visible_meta put_visible
  put_parsed body now (inl answer) = pure answer
  put_parsed body now (inr options) = do
    existing ← visible_meta env now
    put_visible options body now existing
