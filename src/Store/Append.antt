-- ===== src/Store/Append.antt =====
-- src/store.rs: `append_message`.
pub mod Order
use rivet_durable_streams.Prelude.{
  ℕ, zero, suc, ◌≡◌, refl, ap, ℤ, Text, Bytes, List, [], ◌∷◌, ◌++◌, map, text_eq, if◌then◌else◌,
  length, take, drop, Result, ok, err, ◌>>=◌,
}
use rivet_durable_streams.Protocol.Offset.{advance_offset}
use rivet_durable_streams.Store.Tables.{Message, Db, insert_row}
use rivet_durable_streams.Store.Meta.{update_meta}

abbrev pub sqlite_bind_chunk_bytes : ℕ
sqlite_bind_chunk_bytes = 65536

-- `slice::chunks(n)`, on fuel that is at least the slice's length.
unfoldable pub chunks : ℕ → ℕ → Bytes → List Bytes
chunks fuel n [] = []
chunks zero n (x ∷ xs) = []
chunks (suc fuel) n (x ∷ xs) = take n (x ∷ xs) ∷ chunks fuel n (drop n (x ∷ xs))

abbrev pub message_key : Message → Text
message_key m = m.offset

-- UPDATE messages SET data = data || ? WHERE msg_offset = ?
unfoldable pub extend_message : Text → Bytes → List Message → List Message
extend_message offset chunk [] = []
extend_message offset chunk (m ∷ ms) =
    (if text_eq m.offset offset then record m { content = m.content ++ chunk } else m)
    ∷ extend_message offset chunk ms

unfoldable pub extend_all : Text → List Bytes → List Message → List Message
unfolding extend_message
extend_all offset [] ms = ms
extend_all offset (chunk ∷ rest) ms = extend_all offset rest (extend_message offset chunk ms)

unfoldable pub append_message : Text → Bytes → ℤ → Db → Result (Text × Db)
unfolding chunks extend_all update_meta
append_message current_offset payload now_ms db = do
  next ← advance_offset current_offset (length payload)
  messages ←
      insert_row message_key (record { offset = next; content = []; ts = now_ms }) db.messages
  let filled = extend_all next (chunks (length payload) sqlite_bind_chunk_bytes payload) messages
  ok (
    next,
    update_meta (λ meta. record meta { current_offset = next }) (record db { messages = filled }),
  )
