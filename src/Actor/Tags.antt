-- ===== src/Actor/Tags.antt =====
-- src/actor.rs: the headers that describe a stream, and the entity tag.
use rivet_durable_streams.Prelude.{
  Bool, ℤ, pos, negsuc, suc, String, Text, [], ◌∷◌, ◌++◌, Option, none, some, if◌then◌else◌, codes,
}
use rivet_durable_streams.Protocol.Decimal.{to_text}
use rivet_durable_streams.Protocol.Http.{Headers, insert_header}
use rivet_durable_streams.Store.Tables.{Meta}
use rivet_durable_streams.Store.Platform.{Platform}

-- `i64::to_string`
unfoldable pub int_to_text : ℤ → Text
int_to_text (pos n) = to_text n
int_to_text (negsuc n) = b'-' ∷ to_text (suc n)

unfoldable pub insert_some : String → Option Text → Headers → Headers
unfolding insert_header
insert_some name none headers = headers
insert_some name (some value) headers = insert_header name value headers

unfoldable pub ttl_text : Option ℤ → Option Text
unfolding int_to_text
ttl_text none = none
ttl_text (some ttl) = some (int_to_text ttl)

unfoldable pub metadata_headers : Meta → Headers
unfolding insert_some ttl_text
metadata_headers meta = insert_some "stream-expires-at" meta.expires_at (
    insert_some "stream-ttl" (ttl_text meta.ttl_seconds) (
      insert_some "stream-closed" (if meta.closed then some (codes "true") else none) (
        insert_some "content-type" meta.content_type
          (("stream-next-offset", meta.current_offset) ∷ []))))

unfoldable pub make_etag : Platform → Text → Text → Text → Bool → Text
make_etag p actor_id start end closed =
    b'"' ∷ p.standard_encode actor_id
    ++ b':' ∷ start
    ++ b':' ∷ end
    ++ (if closed then codes ":c" else [])
    ++ b'"' ∷ []
