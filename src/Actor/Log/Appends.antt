-- ===== src/Actor/Log/Appends.antt =====
-- `append_message` of src/store.rs as a step of the abstract log.
use rivet_durable_streams.Prelude.{
  ◌≡◌, refl, ap, ◌∙◌, inl, inr, false, ℤ, Text, Bytes, List, [], ◌∷◌, none, some, arith, ok, length,
  text_eq, text_eq_iff, Bool-cases, eq_of_cmp_text,
}
use rivet_durable_streams.Store.Tables.{Meta, Message, Db, find_row, has_row, insert_row, place_row}
use rivet_durable_streams.Store.Tables.Laws.{has_row-eq-is_some, find_row-place_row}
use rivet_durable_streams.Store.Append.{
  message_key, append_message, extend_message, extend_all, chunks, sqlite_bind_chunk_bytes,
}
use rivet_durable_streams.Store.Meta.{update_meta}
use rivet_durable_streams.Store.Append.Order.{meta-append_message}
use rivet_durable_streams.Actor.Log.{stream, stay, here, next}
use rivet_durable_streams.Actor.Log.Tables.{Evolves}

find_row-extend_message :
    (k offset : Text) (chunk : Bytes) (ms : List Message)
    → text_eq offset k ≡ false
    → find_row message_key k (extend_message offset chunk ms) ≡ find_row message_key k ms
unfolding find_row extend_message
find_row-extend_message k offset chunk [] h = refl
find_row-extend_message k offset chunk (m ∷ ms) h = ground (
  arith,
  find_row-extend_message k offset chunk ms,
  eq_of_cmp_text m.offset offset,
  eq_of_cmp_text m.offset k,
)

find_row-extend_all :
    (k offset : Text) (cs : List Bytes) (ms : List Message)
    → text_eq offset k ≡ false
    → find_row message_key k (extend_all offset cs ms) ≡ find_row message_key k ms
unfolding extend_all
find_row-extend_all k offset [] ms h = refl
find_row-extend_all k offset (c ∷ cs) ms h =
    find_row-extend_all k offset cs (extend_message offset c ms) h
    ∙ find_row-extend_message k offset c ms h

inserted :
    (tail offset : Text) (payload : Bytes) (now : ℤ) (db after : Db)
    → append_message tail payload now db ≡ ok (offset, after)
    → (has_row message_key offset db.messages ≡ false)
      × (after.messages
          ≡ extend_all offset (chunks (length payload) sqlite_bind_chunk_bytes payload) (
              place_row message_key
                (record { offset = offset; content = []; ts = now })
                db.messages))
unfolding append_message insert_row update_meta
inserted tail offset payload now db after h = ground arith

-- A committed append leaves what stands under every other offset, and its own offset was free.
kept :
    (tail offset k : Text) (payload : Bytes) (now : ℤ) (db after : Db)
    → append_message tail payload now db ≡ ok (offset, after)
    → (find_row message_key offset db.messages ≡ none)
      × (text_eq offset k ≡ false
          → find_row message_key k after.messages ≡ find_row message_key k db.messages)
kept tail offset k payload now db after h =
    let (free, e) = inserted tail offset payload now db after h in
    let gone : find_row message_key offset db.messages ≡ none =
      ground (arith, has_row-eq-is_some message_key offset db.messages) in
    (
      gone,
      λ other.
          ap (find_row message_key k) e
          ∙ find_row-extend_all k offset _ _ other
          ∙ find_row-place_row message_key k (record { offset = offset; content = []; ts = now })
              db.messages gone
          ∙ rw other refl,
    )

pub append_message-Evolves :
    {watched : Text} (tail offset : Text) (payload : Bytes) (now : ℤ) (db after : Db) (m : Meta)
    → db.meta ≡ some m
    → m.closed ≡ false
    → append_message tail payload now db ≡ ok (offset, after)
    → Evolves watched db after
unfolding stream
append_message-Evolves tail offset payload now db after m e opened h =
    rw (e, meta-append_message tail payload now db after offset m h e)
      (next here (stay _ _ refl (same, λ closed. cc)))
  where
    same :
        (k : Text) (found : Message)
        → find_row message_key k db.messages ≡ some found
        → find_row message_key k after.messages ≡ some found
    same k found there = elim (Bool-cases (text_eq offset k)) [
      | inl eq ↦
          cc (there, (kept tail offset k payload now db after h).0, (text_eq_iff offset k).0 eq)
      | inr other ↦ (kept tail offset k payload now db after h).1 other ∙ there
    ]
