-- ===== src/Store/Range/Pages.antt =====
-- The pages of `read_messages_range` (src/store.rs).
use rivet_durable_streams.Prelude.{
  ℕ, zero, suc, ◌+◌, ◌≤◌, ◌<◌, min, ◌≡◌, refl, ap, ◌↔◌, Bool, true, false, Text, List, [], ◌∷◌,
  ◌++◌, Option, length, take, drop, ltb, arith, length-take, take-append-drop,
}
use rivet_durable_streams.Store.Tables.{Message, Db}
use rivet_durable_streams.Store.Append.Order.{IsAscending}
use rivet_durable_streams.Store.Range.{max_read_rows, read_messages_range, saturating_add_usize}
use rivet_durable_streams.Store.Range.Scan.{
  fitting, scan_page, page_size, wanted, IsAscending-select,
}

-- On an ordered log and a limit of at most `MAX_READ_ROWS`, a read returns the first rows of the
-- range, as many as the limits let through, and says `capped` exactly when rows of it are left.
pub read_messages_range_lem :
    (after cap : Option Text) (limit budget : ℕ) (allow : Bool) (db : Db)
    → IsAscending db.messages
    → limit ≤ max_read_rows
    → let rows = wanted after cap db in
      let k = page_size limit budget allow rows in
      read_messages_range after cap limit budget allow db
      ≡ record { messages = take k rows; capped = ltb k (length rows) }
unfolding read_messages_range
read_messages_range_lem after cap limit budget allow db h b =
    scan_page limit budget (min (saturating_add_usize limit 1) (max_read_rows + 1)) allow
      (wanted after cap db) (IsAscending-select _ db.messages h)
      (unfold saturating_add_usize in omega arith)

drop_empty : (k : ℕ) (ms : List Message) → (ltb k (length ms) ≡ false) ↔ (drop k ms ≡ [])
drop_empty zero [] = ground arith
drop_empty zero (m ∷ ms) = ground arith
drop_empty (suc k) [] = ground arith
drop_empty (suc k) (m ∷ ms) = ground (arith, drop_empty k ms)

-- On an ordered log and a limit of at most `MAX_READ_ROWS`, a read loses nothing: its messages and
-- the rows left over are the range, and without `capped` there are none left over.
pub read_messages_range-covers :
    (after cap : Option Text) (limit budget : ℕ) (allow : Bool) (db : Db)
    → IsAscending db.messages
    → limit ≤ max_read_rows
    → let batch = read_messages_range after cap limit budget allow db in
      (rest : List Message) × (batch.messages ++ rest ≡ wanted after cap db)
      × ((batch.capped ≡ false) ↔ (rest ≡ []))
read_messages_range-covers after cap limit budget allow db h b =
    let rows = wanted after cap db in
    let k = page_size limit budget allow rows in
    rw (read_messages_range_lem after cap limit budget allow db h b)
      (drop k rows, take-append-drop k rows, drop_empty k rows)

fitting-pos :
    (limit budget : ℕ) (m : Message) (ms : List Message)
    → 0 < limit
    → 0 < fitting limit budget true 0 0 (m ∷ ms)
unfolding fitting
fitting-pos limit budget m ms h = ground arith

-- On an ordered log and a limit from 1 to `MAX_READ_ROWS`, a read that may take an oversized first
-- message is empty only where no message is wanted.
pub read_messages_range-progress :
    (after cap : Option Text) (limit budget : ℕ) (db : Db)
    → IsAscending db.messages
    → limit ≤ max_read_rows
    → 0 < limit
    → (read_messages_range after cap limit budget true db).messages ≡ []
    → wanted after cap db ≡ []
read_messages_range-progress after cap limit budget db h b p e =
    empty_page (wanted after cap db)
      (rw (read_messages_range_lem after cap limit budget true db h b) at e)
  where
    empty_page :
        (rows : List Message) → take (page_size limit budget true rows) rows ≡ [] → rows ≡ []
    empty_page [] e = refl
    empty_page (m ∷ ms) e =
        let q = ap length e in
        absurd (
          omega (
            arith,
            length-take (page_size limit budget true (m ∷ ms)) (m ∷ ms),
            fitting-pos limit budget m ms p,
          ))
