-- ===== src/Actor/Log/Posts.antt =====
-- POST and close of src/actor/write.rs as runs of the abstract log.
use rivet_durable_streams.Prelude.{
  ◌≡◌, refl, ap, ◌∙◌, ◌⊎◌, inl, inr, Bool, true, false, not, ℤ, Text, Bytes, Option, none, some,
  if◌then◌else◌, text_eq, Result, ok, err, Bool-cases,
}
use rivet_durable_streams.Protocol.Http.{Request, Response}
use rivet_durable_streams.Protocol.Content.{normalize_content_type}
use rivet_durable_streams.Store.Tables.{Meta, Db}
use rivet_durable_streams.Store.Meta.{set_closed}
use rivet_durable_streams.Actor.Types.{Env, World, ProducerHeaders}
use rivet_durable_streams.Actor.Exec.{Exec, pure, ◌>>=◌}
use rivet_durable_streams.Actor.Producer.{producer_failure}
use rivet_durable_streams.Actor.Lifecycle.{visible_meta}
use rivet_durable_streams.Actor.Write.{
  reply, Settled, committed, rolled_back, Admission, admitted, refused, admit, closed_by_text,
}
use rivet_durable_streams.Actor.Write.Post.{
  settle, close_admitted, close_tx, close_live, close_visible, handle_close_only, post_payload,
  post_bytes, post_live, post_visible, post_typed, post_parsed, handle_post,
}
use rivet_durable_streams.Actor.Log.{here}
use rivet_durable_streams.Actor.Log.Tables.{
  Evolves, join, ended_with, touch-Evolves, set_closed-Evolves,
}
use rivet_durable_streams.Actor.Log.Steps.{
  Respects, EvolvesAt, bind_at, transact_at, commit-Respects, transact-Respects, respects,
}
use rivet_durable_streams.Actor.Log.Lifecycle.{visible_meta-Respects}
use rivet_durable_streams.Actor.Log.Seen.{Seen, visible_meta-Seen}
use rivet_durable_streams.Actor.Log.Writes.{admit-admitted, commit_state-Evolves, append_tx-Evolves}

module _ {watched : Text} (env : Env) where
  settle-Respects : (settled : Settled) → Respects watched (settle env settled)
  unfolding settle
  settle-Respects (committed answer) = search respects
  settle-Respects (rolled_back answer) = search respects

  close_admitted-Evolves :
      (meta : Meta) (producer : ProducerHeaders) (now : ℤ) (before end : Db) (settled : Settled)
      (admission : Admission)
      → admit (some producer) now before ≡ admission
      → close_admitted env meta producer now before admission ≡ ok (settled, end)
      → Evolves watched before end
  unfolding close_admitted
  close_admitted-Evolves meta producer now before end settled (admitted state db) a h =
      rw (← (admit-admitted (some producer) now before db state a).1) (
        ended_with _ settled db _ end h (
          join (commit_state-Evolves (some producer) state db) (
            join (set_closed-Evolves (closed_by_text env (some producer)) _)
              (touch-Evolves now _))))
  close_admitted-Evolves meta producer now before end settled (refused failure) a h =
      go (producer_failure failure producer meta true) h
    where
      go :
          (r : Result Response)
          → ◌≡◌ {A = Result (Settled × Db)}
              (elim r [ ok answer ↦ ok (rolled_back answer, before) | err e ↦ err e ])
              (ok (settled, end))
          → Evolves watched before end
      go (ok answer) k = ended_with (rolled_back answer) settled before before end k here
      go (err x) k = cc

  close_live-Respects :
      (meta : Meta) (producer : Option ProducerHeaders) (now : ℤ)
      → Respects watched (close_live env meta producer now)
  unfolding close_live close_tx
  close_live-Respects meta none now = search (
    respects,
    commit-Respects _
        (λ (db : Db). join (set_closed-Evolves none db) (touch-Evolves now (set_closed none db))),
  )
  close_live-Respects meta (some producer) now = search (
    respects,
    settle-Respects,
    transact-Respects _ (λ (db : Db) (s : Settled) (end : Db).
        close_admitted-Evolves meta producer now db end s (admit (some producer) now db) refl),
  )

  close_visible-Respects :
      (producer : Option ProducerHeaders) (now : ℤ) (meta : Option Meta)
      → Respects watched (close_visible env producer now meta)
  unfolding close_visible
  close_visible-Respects producer now none = search respects
  close_visible-Respects producer now (some meta) = search (respects, close_live-Respects)

  handle_close_only-Respects :
      (producer : Option ProducerHeaders) (now : ℤ)
      → Respects watched (handle_close_only env producer now)
  unfolding handle_close_only
  handle_close_only-Respects producer now =
      search (respects, visible_meta-Respects env now, close_visible-Respects)

  post_bytes_at :
      (producer : Option ProducerHeaders) (seq : Option Text) (close_stream : Bool) (now : ℤ)
      (payload : Response ⊎ Bytes) (meta : Meta) (w : World env.Rest)
      → w.db.meta ≡ some meta
      → meta.closed ≡ false
      → EvolvesAt watched (post_bytes env producer seq close_stream now payload) w
  unfolding post_bytes
  post_bytes_at producer seq close_stream now (inl answer) meta w e opened = record { run = here }
  post_bytes_at producer seq close_stream now (inr payload) meta w e opened =
      bind_at _ _ w
        (transact_at _ w (λ s end.
          append_tx-Evolves env meta opened payload producer seq close_stream now w.db s end e))
        (λ settled k. (settle-Respects settled).at _)

  post_live_at :
      (body : Bytes) (producer : Option ProducerHeaders) (content_type : Text) (seq : Option Bytes)
      (close_stream : Bool) (now : ℤ) (meta : Meta) (w : World env.Rest)
      → Seen env now meta w
      → EvolvesAt watched (post_live env body producer content_type seq close_stream now meta) w
  unfolding post_live
  post_live_at body producer content_type seq close_stream now meta w seen =
      elim (Bool-cases meta.soft_deleted) [
        | inl deleted ↦ rw deleted (record { run = here })
        | inr there ↦ rw there (elim (Bool-cases meta.closed) [
          | inl closed ↦ rw closed (record { run = here })
          | inr opened ↦ rw opened (elim seen [
            | inl deleted ↦ absurd (cc)
            | inr found ↦
                typed
                  (not (
                    text_eq (normalize_content_type (some content_type))
                      (normalize_content_type meta.content_type)))
                  (post_bytes_at producer _ close_stream now (post_payload env meta body) meta w
                    found opened)
          ])
        ])
      ]
    where
      typed :
          (differs : Bool) {m : Exec env.Rest Response}
          → EvolvesAt watched m w
          → EvolvesAt watched (if differs then pure (reply 409 "Content-type mismatch") else m) w
      typed true h = record { run = here }
      typed false h = h

  post_visible_at :
      (body : Bytes) (producer : Option ProducerHeaders) (content_type : Text) (seq : Option Bytes)
      (close_stream : Bool) (now : ℤ) (meta : Option Meta) (w : World env.Rest)
      → ((m : Meta) → meta ≡ some m → Seen env now m w)
      → EvolvesAt watched (post_visible env body producer content_type seq close_stream now meta) w
  unfolding post_visible
  post_visible_at body producer content_type seq close_stream now none w seen = record {
    run = here;
  }
  post_visible_at body producer content_type seq close_stream now (some meta) w seen =
      post_live_at body producer content_type seq close_stream now meta w (seen meta refl)

  post_seen-Respects :
      (body : Bytes) (producer : Option ProducerHeaders) (content_type : Text) (seq : Option Bytes)
      (close_stream : Bool) (now : ℤ)
      → Respects watched (
          visible_meta env now >>= post_visible env body producer content_type seq close_stream now)
  post_seen-Respects body producer content_type seq close_stream now = record {
    at = λ w.
        bind_at (visible_meta env now)
          (post_visible env body producer content_type seq close_stream now) w
          ((visible_meta-Respects env now).at w)
          (λ meta e.
            post_visible_at body producer content_type seq close_stream now meta _
              (λ m k. visible_meta-Seen env now w m (e ∙ ap ok k)));
  }

  post_typed-Respects :
      (request : Request) (producer : Option ProducerHeaders) (close_stream : Bool) (now : ℤ)
      (content_type : Option Text)
      → Respects watched (post_typed env request producer close_stream now content_type)
  unfolding post_typed
  post_typed-Respects request producer close_stream now none = search respects
  post_typed-Respects request producer close_stream now (some content_type) =
      search (respects, post_seen-Respects)

  post_parsed-Respects :
      (request : Request) (close_stream : Bool) (now : ℤ) (parsed : Result (Option ProducerHeaders))
      → Respects watched (post_parsed env request close_stream now parsed)
  unfolding post_parsed
  post_parsed-Respects request close_stream now (err message) = search respects
  post_parsed-Respects request close_stream now (ok producer) =
      search (respects, handle_close_only-Respects, post_typed-Respects)

  pub handle_post-Respects :
      (request : Request) (now : ℤ) → Respects watched (handle_post env request now)
  unfolding handle_post
  handle_post-Respects request now = search (respects, post_parsed-Respects)
