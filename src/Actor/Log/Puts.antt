-- ===== src/Actor/Log/Puts.antt =====
-- PUT of src/actor/write.rs as runs of the abstract log.
use rivet_durable_streams.Prelude.{
  ℕ, ◌≡◌, ◌≢◌, ◌⊎◌, inl, inr, ℤ, Text, Bytes, Option, none, some, ok, Option-cases, unwrap_or,
}
use rivet_durable_streams.Protocol.Http.{Request, Response, public_header_text}
use rivet_durable_streams.Protocol.Integer.{parse_non_negative_safe_integer}
use rivet_durable_streams.Store.Tables.{Meta, Db}
use rivet_durable_streams.Actor.Types.{Env}
use rivet_durable_streams.Actor.Exec.{Exec, pure, ◌>>=◌, transact}
use rivet_durable_streams.Store.Meta.{new_meta}
use rivet_durable_streams.Actor.Write.Put.Creates.{meta-put_tx}
use rivet_durable_streams.Actor.Write.Put.{
  optional_number, PutOptions, put_tx, put_meta, settle_put, put_bytes, put_new, put_visible,
  put_parsed,
}
use rivet_durable_streams.Actor.Write.Put.Requests.{
  fork_headers_error, read_options, read_lifetime, handle_put,
}
use rivet_durable_streams.Actor.Log.{here}
use rivet_durable_streams.Actor.Log.Tables.{Evolves, ended_with, create-Evolves}
use rivet_durable_streams.Actor.Log.Steps.{
  Respects, transact-Respects, bind-Respects, bind_drawn, pure-Respects, lift-Respects, respects,
}
use rivet_durable_streams.Actor.Log.Lifecycle.{visible_meta-Respects}
use rivet_durable_streams.Actor.Log.Forks.{created-Respects, create_fork-Respects}

put_tx-Evolves :
    {watched : Text} (meta : Meta) (payload : Bytes) (now : ℤ) (db : Db) (offset : Option Text)
    (end : Db)
    → meta.generation ≢ watched
    → put_tx meta payload now db ≡ ok (offset, end)
    → Evolves watched db end
unfolding put_tx
put_tx-Evolves meta payload now db offset end fresh h = elim (Option-cases db.meta) [
  | inl e ↦
      let (next, k) = meta-put_tx meta payload now db end offset e h in
      create-Evolves db end (record meta { current_offset = next }) e k fresh
  | inr (found, e) ↦ ended_with none offset db db end (rw (e, put_tx) at h) here
]

module _ {watched : Text} (env : Env) (fresh : (n : ℕ) → env.platform.uuid n ≢ watched) where
  settle_put-Respects :
      (options : PutOptions) (offset : Option Text)
      → Respects watched (settle_put env options offset)
  unfolding settle_put
  settle_put-Respects options none = search respects
  settle_put-Respects options (some offset) = created-Respects env _ _ _

  put_bytes-Respects :
      (options : PutOptions) (now : ℤ) (payload : Response ⊎ Bytes)
      → Respects watched (put_bytes env options now payload)
  unfolding put_bytes
  put_bytes-Respects options now (inl answer) = search respects
  put_bytes-Respects options now (inr payload) =
      bind_drawn env.platform.uuid
        (λ generation.
          transact (put_tx (put_meta generation options now) payload now)
          >>= settle_put env options)
        λ n.
          bind-Respects _ _
            (transact-Respects (put_tx (put_meta (env.platform.uuid n) options now) payload now)
              (λ (db : Db) (offset : Option Text) (end : Db).
                put_tx-Evolves (put_meta (env.platform.uuid n) options now) payload now db offset
                  end (unfold put_meta new_meta in fresh n)))
            (settle_put-Respects options)

  put_new-Respects :
      (options : PutOptions) (body : Bytes) (now : ℤ) (from : Option Text)
      → Respects watched (put_new env options body now from)
  unfolding put_new
  put_new-Respects options body now none = put_bytes-Respects options now _
  put_new-Respects options body now (some path) = search (create_fork-Respects env fresh)

  put_visible-Respects :
      (options : PutOptions) (body : Bytes) (now : ℤ) (found : Option Meta)
      → Respects watched (put_visible env options body now found)
  unfolding put_visible
  put_visible-Respects options body now none = put_new-Respects options body now options.forked_from
  put_visible-Respects options body now (some existing) = search respects

  put_parsed-Respects :
      (body : Bytes) (now : ℤ) (options : Response ⊎ PutOptions)
      → Respects watched (put_parsed env body now options)
  unfolding put_parsed
  put_parsed-Respects body now (inl answer) = search respects
  put_parsed-Respects body now (inr options) =
      search (respects, visible_meta-Respects env now, put_visible-Respects)

  checked-Respects :
      (refusal : Option Response) (m : Exec env.Rest (Response ⊎ PutOptions))
      → Respects watched m
      → Respects {R = env.Rest} {A = Response ⊎ PutOptions} watched
          (elim refusal [ some answer ↦ pure (inl answer) | none ↦ m ])
  checked-Respects none m h = h
  checked-Respects (some answer) m h = pure-Respects (inl answer)

  read_lifetime-Respects :
      (request : Request) (from offset : Option Text) (sub_offset : Option ℕ)
      → Respects watched (read_lifetime env request from offset sub_offset)
  unfolding read_lifetime
  read_lifetime-Respects request from offset sub_offset = search respects depth 12

  read_options-Respects : (request : Request) → Respects watched (read_options env request)
  unfolding read_options
  read_options-Respects request =
      bind-Respects _ _
        (lift-Respects (public_header_text env.platform request "stream-forked-from"))
        λ from.
          bind-Respects _ _
            (lift-Respects (public_header_text env.platform request "stream-fork-offset"))
            λ offset.
              bind-Respects _ _
                (lift-Respects (public_header_text env.platform request "stream-fork-sub-offset"))
                λ sub.
                  let sub_offset =
                    unwrap_or (optional_number parse_non_negative_safe_integer sub) none in
                  checked-Respects (fork_headers_error env from offset sub)
                    (read_lifetime env request from offset sub_offset)
                    (read_lifetime-Respects request from offset sub_offset)

  pub handle_put-Respects :
      (request : Request) (now : ℤ) → Respects watched (handle_put env request now)
  unfolding handle_put
  handle_put-Respects request now = search (respects, read_options-Respects, put_parsed-Respects)
