-- ===== src/Actor/Fork/Create.antt =====
-- src/actor/fork.rs: the transaction of `create_fork`, and what goes into it.
pub mod Run
use rivet_durable_streams.Prelude.{
  ℕ, Bool, not, ℤ, pos, Text, Bytes, [], ◌∷◌, Option, none, some, ltb, if◌then◌else◌, is_some,
  or_else, unwrap_or, filter_option, text_eq, codes, length, Result, ok, err,
}
use rivet_durable_streams.Protocol.Http.{Response, text_response}
use rivet_durable_streams.Store.Tables.{Meta, Db}
use rivet_durable_streams.Store.Meta.{new_meta, create_meta}
use rivet_durable_streams.Store.Append.{append_message}
use rivet_durable_streams.Store.Forks.{delete_fork_intent}
use rivet_durable_streams.Actor.Types.{ForkAcquireResult}
use rivet_durable_streams.Actor.Write.{reply}

abbrev pub max_offset_cap : Text
max_offset_cap = codes "9999999999999999_9999999999999999"

pub record ForkCreateOptions : Type 0 where
  pub parent_path : Text
  pub fork_offset : Option Text
  pub fork_sub_offset : Option ℕ
  pub content_type : Option Text
  pub ttl_seconds : Option ℤ
  pub expires_at : Option Text
  pub closed : Bool
  pub body : Bytes
  pub now_ms : ℤ

-- What the source granted.
pub record Grant : Type 0 where
  pub edge_id : Text
  pub fork_offset : Text
  pub source_generation : Text
  pub content_type : Text
  pub ttl_seconds : Option ℤ
  pub expires_at : Option Text

-- A fork that says nothing of its lifetime inherits the source's, the sliding one first.
unfoldable pub effective_lifetime :
    Option ℤ → Option Text → ForkAcquireResult → Option ℤ × Option Text
effective_lifetime none none acquired =
    if is_some acquired.ttl_seconds
    then (acquired.ttl_seconds, none)
    else (none, acquired.expires_at)
effective_lifetime ttl_seconds expires_at acquired = (ttl_seconds, expires_at)

unfoldable pub grant_of : Text → ForkCreateOptions → ForkAcquireResult → Result Grant
unfolding effective_lifetime
grant_of edge_id options acquired = elim acquired.fork_offset [
  | none ↦ err "source omitted acquired fork offset"
  | some fork_offset ↦ elim acquired.source_generation [
    | none ↦ err "source omitted generation"
    | some source_generation ↦ ok (record {
      edge_id = edge_id;
      fork_offset = fork_offset;
      source_generation = source_generation;
      content_type =
          unwrap_or (or_else options.content_type acquired.content_type)
            (codes "application/octet-stream");
      ttl_seconds = (effective_lifetime options.ttl_seconds options.expires_at acquired).0;
      expires_at = (effective_lifetime options.ttl_seconds options.expires_at acquired).1;
    })
  ]
]

-- The answer to a fork that the source refuses.
unfoldable pub refusal : Option Text → Result Response
unfolding text_response
refusal none = err "source returned an invalid fork acquire result"
refusal (some error) =
    if text_eq error (codes "not_found")
    then ok (reply 404 "Source stream not found")
    else if text_eq error (codes "soft_deleted")
    then ok (reply 409 "source stream was deleted but still has active forks")
    else if text_eq error (codes "content_type_mismatch")
    then ok (reply 409 "Content type mismatch with source stream")
    else if text_eq error (codes "invalid_offset")
    then ok (reply 400 "Fork offset beyond source stream length")
    else err "source returned an invalid fork acquire result"

unfoldable pub append_nonempty : Text → Bytes → ℤ → Db → Result (Text × Db)
unfolding append_message
append_nonempty current_offset [] now db = ok (current_offset, db)
append_nonempty current_offset (x ∷ xs) now db = append_message current_offset (x ∷ xs) now db

unfoldable pub append_both : Text → Bytes → Bytes → ℤ → Db → Result (Text × Db)
unfolding append_nonempty
append_both current_offset first_part second_part now db =
    elim (append_nonempty current_offset first_part now db) [
      | err e ↦ err e
      | ok (offset, after) ↦ append_nonempty offset second_part now after
    ]

unfoldable pub fork_meta : Text → ForkCreateOptions → Grant → Meta
unfolding new_meta
fork_meta generation options grant =
    new_meta generation (some grant.content_type) grant.ttl_seconds grant.expires_at options.closed
      options.now_ms (some options.parent_path) (some grant.fork_offset)
      (elim (filter_option (ltb 0) options.fork_sub_offset) [ none ↦ none | some n ↦ some (pos n) ])
      (some grant.edge_id) (some grant.source_generation)

unfoldable pub creation_tx :
    Text → ForkCreateOptions → Grant → Bytes → Bytes → Db → Result (Text × Db)
unfolding fork_meta create_meta append_both delete_fork_intent
creation_tx generation options grant prefix payload db = elim db.meta [
  | some _ ↦ err "stream was created during fork acquisition"
  | none ↦ elim (create_meta (fork_meta generation options grant) db) [
    | err e ↦ err e
    | ok created ↦ elim (append_both grant.fork_offset prefix payload options.now_ms created) [
      | err e ↦ err e
      | ok (current_offset, after) ↦ ok (current_offset, delete_fork_intent grant.edge_id after)
    ]
  ]
]
