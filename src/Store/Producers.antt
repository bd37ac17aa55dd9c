-- ===== src/Store/Producers.antt =====
-- src/store.rs: the `producers` table.
pub mod Expiry
use rivet_durable_streams.Prelude.{
  ℕ, zero, suc, Bool, true, false, not, ◌&&◌, ◌||◌, ℤ, ltb_ℤ, Text, List, [], ◌∷◌, Option, none,
  some, text_eq, text_lt, if◌then◌else◌, take, select, map,
}
use rivet_durable_streams.Store.Tables.{
  ProducerState, ProducerRow, Db, find_row, delete_row, upsert_row,
}

abbrev pub producer_key : ProducerRow → Text
producer_key row = row.producer_id

-- DELETE … WHERE producer_id = ? AND last_updated < ?
unfoldable pub expire_addressed : Text → ℤ → List ProducerRow → List ProducerRow
unfolding select
expire_addressed producer_id expired_before = select (λ row.
    not (text_eq row.producer_id producer_id && ltb_ℤ row.state.last_updated expired_before))

-- ORDER BY last_updated, producer_id
unfoldable pub place_by_age : ProducerRow → List ProducerRow → List ProducerRow
place_by_age row [] = row ∷ []
place_by_age row (x ∷ xs) =
    if ltb_ℤ x.state.last_updated row.state.last_updated
      || (not (ltb_ℤ row.state.last_updated x.state.last_updated)
          && text_lt x.producer_id row.producer_id)
    then x ∷ place_by_age row xs
    else row ∷ x ∷ xs

unfoldable pub by_age : List ProducerRow → List ProducerRow
unfolding place_by_age
by_age [] = []
by_age (x ∷ xs) = place_by_age x (by_age xs)

unfoldable pub delete_each : List ProducerRow → List ProducerRow → List ProducerRow
unfolding delete_row
delete_each [] rows = rows
delete_each (x ∷ xs) rows = delete_each xs (delete_row producer_key x.producer_id rows)

-- The bounded sweep of the other expired producers.
unfoldable pub sweep : ℤ → List ProducerRow → List ProducerRow
unfolding by_age delete_each select
sweep expired_before rows =
    delete_each
      (take 64 (by_age (select (λ row. ltb_ℤ row.state.last_updated expired_before) rows))) rows

-- The state that is left of a producer, and the tables after the two deletions.
unfoldable pub get_producer_state : Text → ℤ → Db → Option ProducerState × Db
unfolding expire_addressed sweep find_row
get_producer_state producer_id expired_before db =
    let rows = sweep expired_before (expire_addressed producer_id expired_before db.producers) in
    let found : Option ProducerState = elim (find_row producer_key producer_id rows) [
      | none ↦ none
      | some row ↦ some row.state
    ] in
    (found, record db { producers = rows })

unfoldable pub commit_producer_state : Text → ProducerState → Db → Db
unfolding upsert_row
commit_producer_state producer_id state db = record db {
  producers =
      upsert_row producer_key (record { producer_id = producer_id; state = state }) db.producers;
}
