-- ===== src/Actor/Write/Put/Requests.antt =====
-- src/actor/write.rs: `handle_put`, and the headers that it reads.
use rivet_durable_streams.Prelude.{
  ℕ, Bool, not, ◌&&◌, ◌||◌, ◌⊎◌, inl, inr, ℤ, Text, Option, none, some, ltb, if◌then◌else◌, is_none,
  is_some, is_some_and, unwrap_or, length, Result, ok, err,
}
use rivet_durable_streams.Protocol.Offset.{is_concrete_offset}
use rivet_durable_streams.Protocol.Content.{sanitize_content_type}
use rivet_durable_streams.Protocol.Integer.{parse_non_negative_safe_integer, parse_ttl}
use rivet_durable_streams.Protocol.Http.{Request, Response, public_header_text, header_is_true}
use rivet_durable_streams.Actor.Types.{Env, max_body_bytes}
use rivet_durable_streams.Actor.Exec.{Exec, pure, lift, ◌>>=◌}
use rivet_durable_streams.Actor.Write.{reply}
use rivet_durable_streams.Actor.Write.Put.{PutOptions, optional_number, as_seconds, put_parsed}

module _ (env : Env) where
  unfoldable pub check_lifetime :
      Option Text
      → Option Text
      → Option ℕ
      → Option Text
      → Option Text
      → Option Text
      → Result Bool
      → Result (Response ⊎ PutOptions)
  unfolding optional_number parse_ttl as_seconds
  check_lifetime forked_from fork_offset sub_offset content_type ttl_header expires_at closed =
      if is_some ttl_header && is_some expires_at
      then ok (inl (reply 400 "Cannot specify both Stream-TTL and Stream-Expires-At"))
      else elim (optional_number parse_ttl ttl_header) [
        | none ↦ ok (inl (reply 400 "Invalid Stream-TTL value"))
        | some ttl ↦
            if is_some_and expires_at (λ value. is_none (env.platform.parse_rfc3339 value))
            then ok (inl (reply 400 "Invalid Stream-Expires-At timestamp"))
            else elim closed [
              | err e ↦ err e
              | ok create_closed ↦ ok (
                  inr (record {
                    forked_from = forked_from;
                    fork_offset = fork_offset;
                    fork_sub_offset = sub_offset;
                    content_type = content_type;
                    ttl_seconds = as_seconds ttl;
                    expires_at = expires_at;
                    create_closed = create_closed;
                  }))
            ]
      ]

  -- The fork headers' checks; `none` lets the request go on.
  unfoldable pub fork_headers_error : Option Text → Option Text → Option Text → Option Response
  unfolding is_concrete_offset optional_number parse_non_negative_safe_integer
  fork_headers_error forked_from fork_offset sub_offset_header =
      if is_none forked_from && (is_some fork_offset || is_some sub_offset_header)
      then some
          (reply 400 "Stream-Fork-Offset and Stream-Fork-Sub-Offset require Stream-Forked-From")
      else if is_some_and fork_offset (λ offset. not (is_concrete_offset offset))
      then some (reply 400 "Invalid Stream-Fork-Offset format")
      else if is_none (optional_number parse_non_negative_safe_integer sub_offset_header)
      then some (reply 400 "Invalid Stream-Fork-Sub-Offset format")
      else none

  unfoldable pub read_lifetime :
      Request → Option Text → Option Text → Option ℕ → Exec env.Rest (Response ⊎ PutOptions)
  unfolding public_header_text sanitize_content_type header_is_true check_lifetime
  read_lifetime request forked_from fork_offset sub_offset = do
    content_type ← lift (public_header_text env.platform request "content-type")
    ttl_header ← lift (public_header_text env.platform request "stream-ttl")
    expires_at ← lift (public_header_text env.platform request "stream-expires-at")
    lift (
        check_lifetime forked_from fork_offset sub_offset
          (sanitize_content_type content_type (is_some forked_from)) ttl_header expires_at
          (header_is_true env.platform request "stream-closed"))

  unfoldable pub read_options : Request → Exec env.Rest (Response ⊎ PutOptions)
  unfolding public_header_text fork_headers_error read_lifetime optional_number
  read_options request = do
    forked_from ← lift (public_header_text env.platform request "stream-forked-from")
    fork_offset ← lift (public_header_text env.platform request "stream-fork-offset")
    sub_header ← lift (public_header_text env.platform request "stream-fork-sub-offset")
    elim (fork_headers_error forked_from fork_offset sub_header) [
      | some answer ↦ pure (inl answer)
      | none ↦
          read_lifetime request forked_from fork_offset
            (unwrap_or (optional_number parse_non_negative_safe_integer sub_header) none)
    ]

  unfoldable pub handle_put : Request → ℤ → Exec env.Rest Response
  unfolding read_options put_parsed
  handle_put request now =
      if ltb max_body_bytes (length request.body)
      then pure (reply 413 "Payload too large")
      else do options ← read_options request; put_parsed env request.body now options
