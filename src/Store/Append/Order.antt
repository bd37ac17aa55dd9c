-- ===== src/Store/Append/Order.antt =====
-- `append_message` of src/store.rs on an ordered log.
use Prim.Native.Nat.Ordering.{lt}
use mathlib.Core.List.{append-nil, append_assoc}
use rivet_durable_streams.Prelude.{
  ℕ, zero, suc, ◌+◌, ◌≤◌, ◌<◌, ◌≡◌, refl, ap, ◌∙◌, true, false, ℤ, Text, Bytes, List, [], ◌∷◌, ◌++◌,
  some, text_le, cmp_text, length, take, drop, ok, length-drop, take-append-drop, arith,
  gt_of_lt_text, eq_of_cmp_text, cmp_text_refl, lt_trans_text,
}
use rivet_durable_streams.Protocol.Offset.{advance_offset}
use rivet_durable_streams.Protocol.Offset.Order.{
  offset_text, limit, advance_offset-offset_text, offset_text-lt,
}
use rivet_durable_streams.Store.Tables.{Meta, Message, Db, insert_row, place_row, has_row}
use rivet_durable_streams.Store.Meta.{update_meta}
use rivet_durable_streams.Store.Append.{
  chunks, message_key, extend_message, extend_all, append_message, sqlite_bind_chunk_bytes,
}

-- Every message of the list is at or before `t`.
abbrev pub AtMost : Text → List Message → Type 0
AtMost t [] = Unit {0}
AtMost t (m ∷ ms) = (text_le m.offset t ≡ true) × AtMost t ms

-- Every message of the list is after `t`.
abbrev pub After : Text → List Message → Type 0
After t [] = Unit {0}
After t (m ∷ ms) = (cmp_text t m.offset ≡ lt) × After t ms

abbrev pub IsAscending : List Message → Type 0
IsAscending [] = Unit {0}
IsAscending (m ∷ ms) = After m.offset ms × IsAscending ms

-- The messages of a stream whose tail is `tail`.
pub record IsLog (tail : Text) (ms : List Message) : Type 0 where
  pub ascending : IsAscending ms
  pub at_most : AtMost tail ms

abbrev concat : List Bytes → Bytes
concat [] = []
concat (c ∷ cs) = c ++ concat cs

-- Splitting into chunks loses nothing.
concat-chunks : (fuel n : ℕ) (xs : Bytes) → length xs ≤ fuel → concat (chunks fuel (suc n) xs) ≡ xs
unfolding chunks
concat-chunks fuel n [] h = refl
concat-chunks zero n (x ∷ xs) h = elim h [ ]
concat-chunks (suc fuel) n (x ∷ xs) h =
    ap (λ ys. x ∷ take n xs ++ ys)
      (concat-chunks fuel n (drop n xs) (omega (arith, length-drop n xs)))
    ∙ ap (◌∷◌ x) (take-append-drop n xs)

le_lt_text : (s t u : Text) → text_le s t ≡ true → cmp_text t u ≡ lt → cmp_text s u ≡ lt
le_lt_text s t u h k = ground (arith, lt_trans_text s t u, eq_of_cmp_text s t)

not_taken :
    (tail next : Text) (ms : List Message)
    → AtMost tail ms
    → cmp_text tail next ≡ lt
    → has_row message_key next ms ≡ false
unfolding has_row
not_taken tail next [] h k = refl
not_taken tail next (m ∷ ms) h k =
    ground (arith, le_lt_text m.offset tail next h.0 k, not_taken tail next ms h.1 k)

place_last :
    (tail : Text) (row : Message) (ms : List Message)
    → AtMost tail ms
    → cmp_text tail row.offset ≡ lt
    → place_row message_key row ms ≡ ms ++ row ∷ []
unfolding place_row
place_last tail row [] h k = refl
place_last tail row (m ∷ ms) h k = ground (
  arith,
  le_lt_text m.offset tail row.offset h.0 k,
  gt_of_lt_text m.offset row.offset,
  place_last tail row ms h.1 k,
)

insert_last :
    (tail : Text) (row : Message) (ms : List Message)
    → AtMost tail ms
    → cmp_text tail row.offset ≡ lt
    → insert_row message_key row ms ≡ ok (ms ++ row ∷ [])
unfolding insert_row
insert_last tail row ms h k =
    ground (arith, not_taken tail row.offset ms h k, place_last tail row ms h k)

extend_last :
    (tail next : Text) (old chunk : Bytes) (now : ℤ) (ms : List Message)
    → AtMost tail ms
    → cmp_text tail next ≡ lt
    → extend_message next chunk (ms ++ record { offset = next; content = old; ts = now } ∷ [])
      ≡ ms ++ record { offset = next; content = old ++ chunk; ts = now } ∷ []
unfolding extend_message
extend_last tail next old chunk now [] h k = ground (arith, cmp_text_refl next)
extend_last tail next old chunk now (m ∷ ms) h k =
    ground
      (arith, le_lt_text m.offset tail next h.0 k, extend_last tail next old chunk now ms h.1 k)

extend_all_last :
    (tail next : Text) (old : Bytes) (cs : List Bytes) (now : ℤ) (ms : List Message)
    → AtMost tail ms
    → cmp_text tail next ≡ lt
    → extend_all next cs (ms ++ record { offset = next; content = old; ts = now } ∷ [])
      ≡ ms ++ record { offset = next; content = old ++ concat cs; ts = now } ∷ []
unfolding extend_all
extend_all_last tail next old [] now ms h k = rw append-nil
extend_all_last tail next old (c ∷ cs) now ms h k =
    ap (extend_all next cs) (extend_last tail next old c now ms h k)
    ∙ extend_all_last tail next (old ++ c) cs now ms h k
    ∙ ap (λ ys. ms ++ record { offset = next; content = ys; ts = now } ∷ [])
        (append_assoc old c (concat cs))

-- The messages and the tail after an append.
abbrev pub appended : Text → Bytes → ℤ → Db → Db
appended next payload now db =
    update_meta (λ meta. record meta { current_offset = next })
      (record db {
        messages = db.messages ++ record { offset = next; content = payload; ts = now } ∷ [];
      })

-- What an append to an ordered log does, for the next offset that `advance_offset` gives.
pub append_message_at :
    (tail next : Text) (payload : Bytes) (now : ℤ) (db : Db)
    → AtMost tail db.messages
    → advance_offset tail (length payload) ≡ ok next
    → cmp_text tail next ≡ lt
    → append_message tail payload now db ≡ ok (next, appended next payload now db)
unfolding append_message
append_message_at tail next payload now db h e k =
    rw (e, insert_last tail (record { offset = next; content = []; ts = now }) db.messages h k)
      (ap
        (λ ms. ok (
          next,
          update_meta (λ meta. record meta { current_offset = next }) (record db { messages = ms }),
        ))
        (extend_all_last tail next [] (chunks (length payload) sqlite_bind_chunk_bytes payload) now
            db.messages h k
          ∙ ap (λ c. db.messages ++ record { offset = next; content = c; ts = now } ∷ [])
              (concat-chunks (length payload) 65535 payload (omega arith))))

AtMost-append :
    (tail next : Text) (ms : List Message) (row : Message)
    → AtMost tail ms
    → cmp_text tail next ≡ lt
    → row.offset ≡ next
    → AtMost next (ms ++ row ∷ [])
AtMost-append tail next [] row h k e = (rw e (ground (arith, cmp_text_refl next)), tt)
AtMost-append tail next (m ∷ ms) row h k e =
    (ground (arith, le_lt_text m.offset tail next h.0 k), AtMost-append tail next ms row h.1 k e)

After-append :
    (t tail : Text) (ms : List Message) (row : Message)
    → After t ms
    → cmp_text t row.offset ≡ lt
    → After t (ms ++ row ∷ [])
After-append t tail [] row h k = (k, tt)
After-append t tail (m ∷ ms) row h k = (h.0, After-append t tail ms row h.1 k)

IsAscending-append :
    (tail : Text) (ms : List Message) (row : Message)
    → IsAscending ms
    → AtMost tail ms
    → cmp_text tail row.offset ≡ lt
    → IsAscending (ms ++ row ∷ [])
IsAscending-append tail [] row h a k = (tt, tt)
IsAscending-append tail (m ∷ ms) row h a k = (
  After-append m.offset tail ms row h.0 (le_lt_text m.offset tail row.offset a.0 k),
  IsAscending-append tail ms row h.1 a.1 k,
)

pub IsLog-append :
    (tail : Text) (ms : List Message) (row : Message)
    → IsLog tail ms
    → cmp_text tail row.offset ≡ lt
    → IsLog row.offset (ms ++ row ∷ [])
IsLog-append tail ms row h k = record {
  ascending = IsAscending-append tail ms row h.ascending h.at_most k;
  at_most = AtMost-append tail row.offset ms row h.at_most k refl;
}

messages-appended :
    (next : Text) (payload : Bytes) (now : ℤ) (db : Db)
    → (appended next payload now db).messages
      ≡ db.messages ++ record { offset = next; content = payload; ts = now } ∷ []
unfolding update_meta
messages-appended next payload now db = ground arith

-- At a tail within the offset limit `append_message` succeeds: the payload becomes the last message
-- at the offset 5 and its length further on, every other message stays, and the log stays ordered.
pub append_message-IsLog :
    (r b : ℕ) (payload : Bytes) (now : ℤ) (db : Db)
    → r < limit
    → b + 5 + length payload < limit
    → IsLog (offset_text r b) db.messages
    → let next = offset_text r (b + 5 + length payload) in
      (append_message (offset_text r b) payload now db ≡ ok (next, appended next payload now db))
      × ((appended next payload now db).messages
          ≡ db.messages ++ record { offset = next; content = payload; ts = now } ∷ [])
      × IsLog next (appended next payload now db).messages
append_message-IsLog r b payload now db hr hb h =
    let next = offset_text r (b + 5 + length payload) in
    let k : cmp_text (offset_text r b) next ≡ lt = offset_text-lt r b (length payload) hr hb in
    (
      append_message_at (offset_text r b) next payload now db h.at_most
          (advance_offset-offset_text r b (length payload) hr hb) k,
      messages-appended next payload now db,
      rw (messages-appended next payload now db) (
          IsLog-append (offset_text r b) db.messages
            (record { offset = next; content = payload; ts = now }) h k),
    )

-- Whatever the log, an append that succeeds moves the tail of the `meta` row, and no other column.
pub meta-append_message :
    (tail : Text) (payload : Bytes) (now : ℤ) (db after : Db) (offset : Text) (m : Meta)
    → append_message tail payload now db ≡ ok (offset, after)
    → db.meta ≡ some m
    → after.meta ≡ some (record m { current_offset = offset })
unfolding append_message update_meta
meta-append_message tail payload now db after offset m h e = ground arith
