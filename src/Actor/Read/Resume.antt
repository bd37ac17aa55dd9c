-- ===== src/Actor/Read/Resume.antt =====
-- `read_snapshot` of src/actor/read.rs and the offset at which a client reads on.
use rivet_durable_streams.Prelude.{
  ℕ, suc, ◌≡◌, refl, ap, ◌∙◌, inl, inr, Bool, true, false, not, ℤ, Text, List, [], ◌∷◌, ◌++◌,
  Option, none, some, Option-cases, text_eq, codes, all, last, arith, select, if◌then◌else◌,
  all-append, ok, Bool-cases,
}
use rivet_durable_streams.Protocol.Offset.{is_concrete_offset}
use rivet_durable_streams.Store.Tables.{Meta, Message, Db}
use rivet_durable_streams.Store.Meta.{is_expired}
use rivet_durable_streams.Store.Append.Order.{IsLog}
use rivet_durable_streams.Store.Range.{
  normalized, in_range, max_read_rows, max_read_bytes, read_messages_range,
}
use rivet_durable_streams.Store.Range.Scan.{wanted}
use rivet_durable_streams.Store.Range.Pages.{
  read_messages_range-progress, read_messages_range-covers,
}
use rivet_durable_streams.Store.Range.Resume.{read_messages_range-resumes}
use rivet_durable_streams.Actor.Types.{Env, World, ReadSnapshot}
use rivet_durable_streams.Actor.Read.{read_snapshot}
use rivet_durable_streams.Actor.Read.Race.{
  first_db, second_db, read_snapshot_own, normalized-concrete, own_batch-start, none_after_tail,
}
use rivet_durable_streams.Actor.Read.Reply.{response_offset}

abbrev pub is_concrete : Message → Bool
is_concrete m = is_concrete_offset m.offset

last-is_concrete :
    (ms : List Message) (l : Message)
    → all is_concrete ms ≡ true
    → last ms ≡ some l
    → is_concrete l ≡ true
unfolding all
last-is_concrete [] l h e = cc
last-is_concrete (m ∷ []) l h e = ground arith
last-is_concrete (m ∷ n ∷ ms) l h e = last-is_concrete (n ∷ ms) l (ground arith) e

last-none : (ms : List Message) → last ms ≡ none → ms ≡ []
last-none [] e = refl
last-none (m ∷ []) e = cc
last-none (m ∷ n ∷ ms) e = cc (last-none (n ∷ ms) e)

normalized_idem : (offset : Option Text) → normalized (normalized offset) ≡ normalized offset
unfolding normalized
normalized_idem none = refl
normalized_idem (some t) = elim (Bool-cases (text_eq t (codes "-1"))) [
  | inl e ↦ rw e refl
  | inr e ↦ ap (λ b. normalized (if not b then some t else none)) e ∙ rw e refl
]

response_offset-last :
    (s : ReadSnapshot) (l : Message) → last s.batch.messages ≡ some l → response_offset s ≡ l.offset
unfolding response_offset
response_offset-last s l e = ap (λ o. elim o [ none ↦ s.meta.current_offset | some m ↦ m.offset ]) e

response_offset-none :
    (s : ReadSnapshot) → last s.batch.messages ≡ none → response_offset s ≡ s.meta.current_offset
unfolding response_offset
response_offset-none s e = ap (λ o. elim o [ none ↦ s.meta.current_offset | some m ↦ m.offset ]) e

all-select :
    (p : Message → Bool) (ms : List Message)
    → all is_concrete ms ≡ true
    → all is_concrete (select p ms) ≡ true
unfolding all select
all-select p [] h = refl
all-select p (m ∷ ms) h = ground (arith, all-select p ms)

all-prefix :
    (xs ys zs : List Message)
    → xs ++ ys ≡ zs
    → all is_concrete zs ≡ true
    → all is_concrete xs ≡ true
all-prefix xs ys zs e h =
    let both : all is_concrete (xs ++ ys) ≡ true = rw e h in
    let split = all-append is_concrete xs ys in ground arith

-- What is left to read behind a batch that a snapshot at the end of the log answers with.
batch_continues :
    (offset : Option Text) (meta : Meta) (db : Db)
    → IsLog meta.current_offset db.messages
    → all is_concrete db.messages ≡ true
    → is_concrete_offset meta.current_offset ≡ true
    → let batch = read_messages_range offset none max_read_rows max_read_bytes true db in
      batch.messages
        ++ wanted (some (response_offset (record { meta = meta; batch = batch }))) none db
      ≡ wanted offset none db
batch_continues offset meta db log concrete tail =
    let batch = read_messages_range offset none max_read_rows max_read_bytes true db in
    let snapshot : ReadSnapshot = record { meta = meta; batch = batch } in
    let (rest, covers, _) =
      read_messages_range-covers offset none max_read_rows max_read_bytes true db log.ascending
        (omega arith) in
    let listed : all is_concrete batch.messages ≡ true =
      all-prefix batch.messages rest (wanted offset none db) covers
        (all-select (in_range _ none) db.messages concrete) in
    elim (Option-cases (last batch.messages)) [
      | inl e ↦
          let empty = last-none batch.messages e in
          rw
            (
              response_offset-none snapshot e,
              empty,
              normalized-concrete meta.current_offset tail,
              none_after_tail meta.current_offset db.messages log.at_most,
              read_messages_range-progress offset none max_read_rows max_read_bytes db log.ascending
                  (omega arith) (omega arith) empty,
            )
            refl
      | inr (l, e) ↦ rw (response_offset-last snapshot l e) (
          read_messages_range-resumes offset none max_read_rows max_read_bytes true db l
            log.ascending (omega arith) e
            (normalized-concrete l.offset (last-is_concrete batch.messages l listed e)))
    ]

module _ (env : Env) where
  -- A read of a live stream that is no fork, on a log of concrete offsets, with nothing between
  -- its two queries: its messages and what is wanted behind the offset that the client is sent to
  -- make up what it asked for, so following the offsets misses nothing.
  pub read_snapshot_continues :
      (fuel : ℕ) (now later : ℤ) (offset : Option Text) (meta fresh : Meta) (w : World env.Rest)
      → w.db.meta ≡ some meta
      → is_expired env.platform meta now ≡ false
      → meta.forked_from ≡ none
      → second_db env w ≡ first_db env w
      → (first_db env w).meta ≡ some fresh
      → fresh.generation ≡ meta.generation
      → IsLog fresh.current_offset (first_db env w).messages
      → all is_concrete (first_db env w).messages ≡ true
      → is_concrete_offset fresh.current_offset ≡ true
      → (snapshot : ReadSnapshot) × ((read_snapshot env
            (suc fuel)
            true
            offset
            (some meta.generation)
            now
            later
            w).0
          ≡ ok (some snapshot))
        × (snapshot.batch.messages ++ wanted (some (response_offset snapshot)) none (first_db env w)
            ≡ wanted offset none (first_db env w))
  read_snapshot_continues fuel now later offset meta fresh w h live own calm k g log concrete tail =
      (
        record {
          meta = fresh;
          batch =
              read_messages_range (normalized offset) none max_read_rows max_read_bytes true
                (first_db env w);
        },
        read_snapshot_own env fuel now later offset meta fresh w h live own
              (ap (λ db. db.meta) calm ∙ k) g
            ∙ ap (λ batch. ok (some (record { meta = fresh; batch = batch })))
                (own_batch-start (normalized offset) (first_db env w)),
        batch_continues (normalized offset) fresh (first_db env w) log concrete tail
            ∙ rw (normalized_idem offset) refl,
      )
