-- ===== src/Tests/Actor.antt =====
-- Concrete inputs for the theorems on src/actor/producer.rs, write.rs, lifecycle.rs and read.rs.
use rivet_durable_streams.Prelude.{
  ◌≡◌, refl, ◌↔◌, ◌⊎◌, true, false, pos, Text, Bytes, [], ◌∷◌, ◌++◌, none, some, codes, all, ◌==◌,
  if◌then◌else◌, cmp_text, Result, ok, err, arith,
}
use rivet_durable_streams.Protocol.Http.{Response, response}
use rivet_durable_streams.Protocol.Offset.{is_concrete_offset, zero_offset, advance_offset}
use rivet_durable_streams.Protocol.Offset.Order.{offset_text, zero_offset-eq-offset_text}
use rivet_durable_streams.Store.Tables.{Db, insert_row, has_row}
use rivet_durable_streams.Store.Meta.{is_expired}
use rivet_durable_streams.Store.Append.{append_message}
use rivet_durable_streams.Store.Append.Order.{IsLog}
use rivet_durable_streams.Store.Range.{empty_batch}
use rivet_durable_streams.Store.Range.Scan.{wanted}
use rivet_durable_streams.Actor.Types.{Env, ProducerHeaders, accepted, ReadSnapshot}
use rivet_durable_streams.Actor.Producer.{validate_producer, producer_success}
use rivet_durable_streams.Actor.Producer.Fencing.{IsNext, accepted_state, validate_producer_accepts}
use rivet_durable_streams.Actor.Write.{
  Settled, committed, rolled_back, append_tx, admit, seq_conflict,
}
use rivet_durable_streams.Actor.Write.Effect.{meta_after, append_tx_appends}
use rivet_durable_streams.Actor.Write.Progress.{append_tx_commits}
use rivet_durable_streams.Actor.Write.Retry.{duplicate_answer, retry_is_duplicate}
use rivet_durable_streams.Actor.Lifecycle.{visible_meta}
use rivet_durable_streams.Actor.Lifecycle.Visible.{visible_meta_not_expired}
use rivet_durable_streams.Actor.Read.{read_snapshot}
use rivet_durable_streams.Actor.Read.Reply.{response_offset}
use rivet_durable_streams.Actor.Read.Race.{read_snapshot_skips}
use rivet_durable_streams.Actor.Read.Resume.{read_snapshot_continues}
use rivet_durable_streams.Tests.Data.{
  env, env_during, platform, world, meta_at, new_db, one_db, first_offset,
}

abbrev producer : ProducerHeaders
producer = record { id = codes "p"; epoch = 3; seq = 0 }

abbrev payload : Bytes
payload = 1 ∷ 2 ∷ 3 ∷ []

validate_producer_accepts_example :
    (validate_producer none producer (pos 5) ≡ accepted (accepted_state producer (pos 5)))
    ↔ (IsNext none producer × (accepted_state producer (pos 5) ≡ accepted_state producer (pos 5)))
validate_producer_accepts_example =
    validate_producer_accepts none producer (pos 5) (accepted_state producer (pos 5))

-- The tables after a transaction, and what a committed one answers.
abbrev pub tables : Db → Result (Settled × Db) → Db
tables db (ok (settled, after)) = after
tables db (err e) = db

abbrev pub answer_of : Result (Settled × Db) → Response
answer_of (ok (committed answer, after)) = answer
answer_of (ok (rolled_back answer, after)) = answer
answer_of (err e) = response 500 [] []

abbrev appended_db : Db
appended_db = tables new_db (append_tx env payload (some producer) none false (pos 10) new_db)

abbrev answered : Response
answered = answer_of (append_tx env payload (some producer) none false (pos 10) new_db)

append_commits :
    append_tx env payload (some producer) none false (pos 10) new_db
    ≡ ok (committed answered, appended_db)
unfolding append_tx codes cmp_text advance_offset insert_row has_row
append_commits = refl

retry_is_duplicate_example :
    append_tx env (9 ∷ []) (some producer) none true (pos 20) appended_db
    ≡ ok (rolled_back (duplicate_answer producer), appended_db)
unfolding append_tx codes
retry_is_duplicate_example =
    retry_is_duplicate env payload (9 ∷ []) producer none none false true (pos 10) (pos 20)
      (meta_at zero_offset) new_db answered appended_db refl append_commits refl

append_tx_appends_example :
    (appended_db.messages
      ≡ record { offset = offset_text 0 8; content = payload; ts = pos 10 } ∷ [])
    × IsLog (offset_text 0 8) appended_db.messages
    × (appended_db.meta
        ≡ some (
            meta_after env
              (some producer)
              none
              none
              false
              (pos 10)
              (offset_text 0 8)
              (meta_at zero_offset)))
    × (appended_db.fork_edges ≡ [])
    × (answered ≡ producer_success (offset_text 0 8) (some producer) false)
append_tx_appends_example =
    append_tx_appends env payload (some producer) none false (pos 10) (meta_at zero_offset) 0 0
      new_db answered appended_db refl zero_offset-eq-offset_text (omega arith) (omega arith)
      (record { ascending = tt; at_most = tt }) append_commits

append_tx_commits_example :
    (after : Db) × (append_tx env payload none none false (pos 10) new_db
      ≡ ok (committed (producer_success (offset_text 0 8) none false), after))
unfolding admit seq_conflict
append_tx_commits_example =
    append_tx_commits env payload none none false (pos 10) (meta_at zero_offset) 0 0 new_db new_db
      none refl zero_offset-eq-offset_text (omega arith) (omega arith)
      (record { ascending = tt; at_most = tt }) refl refl

visible_meta_not_expired_example :
    (is_expired platform (meta_at first_offset) (pos 10) ≡ false)
    ⊎ ((meta_at first_offset).soft_deleted ≡ true)
unfolding visible_meta
visible_meta_not_expired_example =
    visible_meta_not_expired env (pos 10) (meta_at first_offset) (world one_db) (world one_db) refl

one_db-IsLog : IsLog first_offset one_db.messages
unfolding cmp_text codes
one_db-IsLog = record { ascending = (tt, tt); at_most = (refl, tt) }

read_snapshot_continues_example :
    (snapshot : ReadSnapshot) × ((read_snapshot env 1 true
        (some (codes "-1"))
        (some (codes "g"))
        (pos 10)
        (pos 11)
        (world one_db)).0
      ≡ ok (some snapshot))
    × (snapshot.batch.messages ++ wanted (some (response_offset snapshot)) none one_db
        ≡ wanted (some (codes "-1")) none one_db)
unfolding is_expired all is_concrete_offset codes
read_snapshot_continues_example =
    read_snapshot_continues env 0 (pos 10) (pos 11) (some (codes "-1")) (meta_at first_offset)
      (meta_at first_offset) (world one_db) refl refl refl refl refl refl one_db-IsLog refl refl

abbrev second : Result (Text × Db)
second = append_message first_offset (4 ∷ 5 ∷ []) (pos 7) one_db

abbrev second_offset : Result (Text × Db) → Text
second_offset (ok (offset, after)) = offset
second_offset (err e) = []

abbrev second_db : Result (Text × Db) → Db
second_db (ok (offset, after)) = after
second_db (err e) = one_db

-- The second message is appended while the read waits for the second time.
abbrev racing : Env
racing = env_during (λ n db. if n == 1 then second_db second else db)

read_snapshot_skips_example :
    (snapshot : ReadSnapshot) × ((read_snapshot racing 1 true
        (some first_offset)
        (some (codes "g"))
        (pos 10)
        (pos 11)
        (world one_db)).0
      ≡ ok (some snapshot))
    × (snapshot.batch ≡ empty_batch)
    × (response_offset snapshot ≡ second_offset second)
unfolding append_message is_expired is_concrete_offset codes cmp_text advance_offset insert_row
    has_row
read_snapshot_skips_example =
    read_snapshot_skips racing 0 (pos 10) (pos 11) (meta_at first_offset) (4 ∷ 5 ∷ []) (pos 7)
      (second_offset second) (second_db second) (world one_db) refl refl refl refl refl one_db-IsLog
      refl refl
