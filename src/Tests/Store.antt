-- ===== src/Tests/Store.antt =====
-- Concrete inputs for the theorems on src/store.rs.
use rivet_durable_streams.Prelude.{
  ◌≡◌, refl, ◌↔◌, true, false, pos, Text, List, [], ◌∷◌, ◌++◌, none, some, codes, take, length, ltb,
  cmp_text, ok, arith,
}
use rivet_durable_streams.Protocol.Offset.Order.{offset_text}
use rivet_durable_streams.Store.Tables.{Message, ProducerState, Db, empty_db}
use rivet_durable_streams.Store.Append.{append_message}
use rivet_durable_streams.Store.Append.Order.{IsAscending, IsLog, appended, append_message-IsLog}
use rivet_durable_streams.Store.Range.{read_messages_range}
use rivet_durable_streams.Store.Range.Scan.{wanted, page_size}
use rivet_durable_streams.Store.Range.Pages.{
  read_messages_range_lem, read_messages_range-covers, read_messages_range-progress,
}
use rivet_durable_streams.Store.Range.Limits.{IsPage, read_messages_range-IsPage}
use rivet_durable_streams.Store.Range.Resume.{read_messages_range-resumes}
use rivet_durable_streams.Store.Producers.{get_producer_state, commit_producer_state}
use rivet_durable_streams.Store.Producers.Expiry.{get_producer_state-commit_producer_state}
use rivet_durable_streams.Tests.Data.{new_db}

append_message-IsLog_example :
    (append_message (offset_text 0 0) (1 ∷ 2 ∷ 3 ∷ []) (pos 2) new_db
      ≡ ok (offset_text 0 8, appended (offset_text 0 8) (1 ∷ 2 ∷ 3 ∷ []) (pos 2) new_db))
    × ((appended (offset_text 0 8) (1 ∷ 2 ∷ 3 ∷ []) (pos 2) new_db).messages
        ≡ record { offset = offset_text 0 8; content = 1 ∷ 2 ∷ 3 ∷ []; ts = pos 2 } ∷ [])
    × IsLog (offset_text 0 8) (appended (offset_text 0 8) (1 ∷ 2 ∷ 3 ∷ []) (pos 2) new_db).messages
append_message-IsLog_example =
    append_message-IsLog 0 0 (1 ∷ 2 ∷ 3 ∷ []) (pos 2) new_db (omega arith) (omega arith)
      (record { ascending = tt; at_most = tt })

abbrev row : Text → Message
row offset = record { offset = offset; content = 7 ∷ 8 ∷ []; ts = pos 1 }

abbrev rows_db : Db
rows_db = record empty_db { messages = row (codes "a") ∷ row (codes "b") ∷ row (codes "c") ∷ [] }

rows_db-IsAscending : IsAscending rows_db.messages
unfolding cmp_text codes
rows_db-IsAscending = ((refl, (refl, tt)), ((refl, tt), (tt, tt)))

read_messages_range_lem_example :
    let rows = wanted (some (codes "a")) none rows_db in
    let k = page_size 1 100 true rows in
    read_messages_range (some (codes "a")) none 1 100 true rows_db
    ≡ record { messages = take k rows; capped = ltb k (length rows) }
read_messages_range_lem_example =
    read_messages_range_lem (some (codes "a")) none 1 100 true rows_db rows_db-IsAscending
      (omega arith)

read_messages_range-covers_example :
    let batch = read_messages_range (some (codes "a")) none 1 100 true rows_db in
    (rest : List Message) × (batch.messages ++ rest ≡ wanted (some (codes "a")) none rows_db)
    × ((batch.capped ≡ false) ↔ (rest ≡ []))
read_messages_range-covers_example =
    read_messages_range-covers (some (codes "a")) none 1 100 true rows_db rows_db-IsAscending
      (omega arith)

read_messages_range-IsPage_example :
    IsPage 1 100 true (read_messages_range none none 1 100 true rows_db).messages
read_messages_range-IsPage_example =
    read_messages_range-IsPage none none 1 100 true rows_db rows_db-IsAscending (omega arith)
      (omega arith)

read_messages_range-progress_example : wanted (some (codes "c")) none rows_db ≡ []
unfolding read_messages_range codes cmp_text
read_messages_range-progress_example =
    read_messages_range-progress (some (codes "c")) none 1 100 rows_db rows_db-IsAscending
      (omega arith) (omega arith) refl

read_messages_range-resumes_example :
    (read_messages_range none none 1 100 true rows_db).messages
      ++ wanted (some (codes "a")) none rows_db
    ≡ wanted none none rows_db
unfolding read_messages_range codes cmp_text
read_messages_range-resumes_example =
    read_messages_range-resumes none none 1 100 true rows_db (row (codes "a")) rows_db-IsAscending
      (omega arith) refl refl

abbrev state : ProducerState
state = record { epoch = 0; last_seq = 4; last_updated = pos 50 }

get_producer_state-commit_producer_state_example :
    (get_producer_state (codes "p") (pos 10) (commit_producer_state (codes "p") state empty_db)).0
    ≡ some state
get_producer_state-commit_producer_state_example =
    get_producer_state-commit_producer_state (codes "p") (pos 10) empty_db state refl
