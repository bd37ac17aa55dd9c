-- ===== src/Actor/Read/Race.antt =====
-- `read_snapshot` of src/actor/read.rs beside an append: the batch comes from a first query and the
-- tail from a second, without the lock.
use rivet_durable_streams.Prelude.{
  ℕ, zero, suc, ◌+◌, ◌≡◌, refl, ap, ◌∙◌, Bool, true, false, ℤ, Text, Bytes, List, [], ◌∷◌, Option,
  none, some, text_eq, text_eq_iff, codes, select, take, arith, ok, gt_of_lt_text, Bool-cases, min,
  text_eq_refl, inl, inr,
}
use rivet_durable_streams.Protocol.Offset.{is_concrete_offset}
use rivet_durable_streams.Protocol.Offset.Order.{limit}
use rivet_durable_streams.Store.Tables.{Meta, Message, Db}
use rivet_durable_streams.Store.Meta.{is_expired}
use rivet_durable_streams.Store.Append.{append_message}
use rivet_durable_streams.Store.Append.Order.{IsLog, AtMost, meta-append_message}
use rivet_durable_streams.Store.Range.{
  ReadBatch, empty_batch, normalized, in_range, scan, batch_upto, max_read_rows, max_read_bytes,
  read_messages_range,
}
use rivet_durable_streams.Actor.Types.{Env, World, ReadSnapshot}
use rivet_durable_streams.Actor.Exec.{Exec, bind_result, pause, get_db, ◌>>=◌, ◌>>◌}
use rivet_durable_streams.Actor.Lifecycle.{touch_access}
use rivet_durable_streams.Actor.Lifecycle.Visible.{visible_meta_live}
use rivet_durable_streams.Actor.Read.{
  inherits, read_part, own_batch, read_stitched, snapshot_of, snapshot_visible, read_snapshot,
}
use rivet_durable_streams.Actor.Read.Reply.{response_offset}

pub none_after_tail :
    (tail : Text) (ms : List Message) → AtMost tail ms → select (in_range tail none) ms ≡ []
unfolding select in_range
none_after_tail tail [] h = refl
none_after_tail tail (m ∷ ms) h =
    ground (arith, none_after_tail tail ms h.1, gt_of_lt_text tail m.offset)

start_not_concrete : is_concrete_offset (codes "-1") ≡ false
unfolding is_concrete_offset codes
start_not_concrete = refl

pub is_concrete-not_start :
    (t : Text) → is_concrete_offset t ≡ true → text_eq t (codes "-1") ≡ false
is_concrete-not_start t h = elim (Bool-cases (text_eq t (codes "-1"))) [
  | inl e ↦
      let k : is_concrete_offset (codes "-1") ≡ true = rw ((text_eq_iff t (codes "-1")).0 e) at h in
      cc (k, start_not_concrete)
  | inr e ↦ e
]

take-nil : {A : Type 0} (n : ℕ) → take {A = A} n [] ≡ []
take-nil zero = refl
take-nil (suc n) = refl

pub normalized-concrete : (t : Text) → is_concrete_offset t ≡ true → normalized (some t) ≡ some t
unfolding normalized
normalized-concrete t h = rw (is_concrete-not_start t h) refl

pub own_batch-start :
    (offset : Option Text) (db : Db)
    → own_batch offset none max_read_rows max_read_bytes [] db
      ≡ read_messages_range offset none max_read_rows max_read_bytes true db
unfolding own_batch
own_batch-start offset db = refl

-- At the tail a read finds nothing.
pub read_at_tail :
    (tail : Text) (n bytes : ℕ) (allow : Bool) (db : Db)
    → text_eq tail (codes "-1") ≡ false
    → AtMost tail db.messages
    → read_messages_range (some tail) none n bytes allow db ≡ empty_batch
unfolding read_messages_range normalized batch_upto scan select
read_at_tail tail n bytes allow db e h = rw (e, none_after_tail tail db.messages h, take-nil) refl

module _ (env : Env) where
  -- The read of a stream that is not a fork is the one query.
  read_stitched_own :
      (fuel : ℕ) (meta : Meta) (offset : Option Text) (limit bytes : ℕ) (w : World env.Rest)
      → meta.forked_from ≡ none
      → read_stitched env (suc fuel) meta offset none limit bytes w ≡ (
        ok (
            own_batch
              (normalized offset)
              none
              (min limit max_read_rows)
              (min bytes max_read_bytes)
              []
              w.db),
        w,
      )
  unfolding read_stitched read_part inherits
  read_stitched_own fuel meta offset limit bytes w own = rw own refl

  abbrev pub first_db : World env.Rest → Db
  first_db w = env.during w.waits w.db

  abbrev pub second_db : World env.Rest → Db
  second_db w = env.during (w.waits + 1) (first_db w)

  snapshot_of_same :
      (meta fresh : Meta) (batch : ReadBatch) (later : ℤ) (found : Option Meta) (w : World env.Rest)
      → found ≡ some fresh
      → fresh.generation ≡ meta.generation
      → (snapshot_of env meta batch later found w).0
        ≡ ok (some (record { meta = fresh; batch = batch }))
  unfolding snapshot_of touch_access
  snapshot_of_same meta fresh batch later found w e g = rw (e, g, text_eq_refl) refl

  -- A snapshot of a stream that is not a fork: the batch is of the tables at the first query, the
  -- `meta` row of those at the second.
  pub read_snapshot_own :
      (fuel : ℕ) (now later : ℤ) (offset : Option Text) (meta fresh : Meta) (w : World env.Rest)
      → w.db.meta ≡ some meta
      → is_expired env.platform meta now ≡ false
      → meta.forked_from ≡ none
      → (second_db w).meta ≡ some fresh
      → fresh.generation ≡ meta.generation
      → (read_snapshot env (suc fuel) true offset (some meta.generation) now later w).0
        ≡ ok (
            some (record {
              meta = fresh;
              batch =
                  own_batch (normalized offset) none max_read_rows max_read_bytes [] (first_db w);
            }))
  unfolding read_snapshot snapshot_visible pause
  read_snapshot_own fuel now later offset meta fresh w h live own k g =
      let w1 : World env.Rest = record w { db = first_db w; waits = w.waits + 1 } in
      let finish : ReadBatch → Exec env.Rest (Option ReadSnapshot) =
        λ batch. pause env.during >> get_db >>= λ db. snapshot_of env meta batch later db.meta in
      ap
        (λ r.
          (bind_result r.0 r.1
            (snapshot_visible env (suc fuel) offset (some meta.generation) later)).0)
        (visible_meta_live env now w meta h live)
      ∙ rw (text_eq_refl) (
          ap (λ r. (bind_result r.0 r.1 finish).0)
            (read_stitched_own fuel meta offset max_read_rows max_read_bytes w1 own)
          ∙ snapshot_of_same meta fresh _ later _ _ k g)

  -- On a live stream that is no fork, an append that commits between the two queries of a read at
  -- the tail is skipped: the answer holds no message, is not capped, and sends the client to the
  -- offset of the new message.
  pub read_snapshot_skips :
      (fuel : ℕ) (now later : ℤ) (meta : Meta) (payload : Bytes) (ts : ℤ) (next : Text) (after : Db)
      → (w : World env.Rest) → w.db.meta ≡ some meta
      → is_expired env.platform meta now ≡ false
      → meta.forked_from ≡ none
      → is_concrete_offset meta.current_offset ≡ true
      → first_db w ≡ w.db
      → IsLog meta.current_offset w.db.messages
      → append_message meta.current_offset payload ts w.db ≡ ok (next, after)
      → second_db w ≡ after
      → (snapshot : ReadSnapshot) × ((read_snapshot env
            (suc fuel)
            true
            (some meta.current_offset)
            (some meta.generation)
            now
            later
            w).0
          ≡ ok (some snapshot))
        × (snapshot.batch ≡ empty_batch)
        × (response_offset snapshot ≡ next)
  unfolding response_offset
  read_snapshot_skips fuel now later meta payload ts next after w h live own concrete quiet log
        append race =
      let fresh = record meta { current_offset = next } in
      let read : own_batch (normalized (some meta.current_offset)) none max_read_rows max_read_bytes
            [] (first_db w)
          ≡ empty_batch =
        rw (normalized-concrete meta.current_offset concrete, own_batch-start, quiet)
          (read_at_tail meta.current_offset max_read_rows max_read_bytes true w.db
            (is_concrete-not_start meta.current_offset concrete) log.at_most) in
      (
        record { meta = fresh; batch = empty_batch },
        read_snapshot_own fuel now later (some meta.current_offset) meta fresh w h live own
              (ap (λ db. db.meta) race
                ∙ meta-append_message meta.current_offset payload ts w.db after next meta append h)
              refl
            ∙ ap (λ batch. ok (some (record { meta = fresh; batch = batch }))) read,
        refl,
        refl,
      )
