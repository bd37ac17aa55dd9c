-- ===== src/Store/Producers/Expiry.antt =====
-- `get_producer_state` of src/store.rs and the age of a producer's state.
use rivet_durable_streams.Prelude.{
  ℕ, zero, suc, ◌≡◌, refl, ap, Bool, true, false, not, ◌&&◌, ℤ, ltb_ℤ, Text, List, [], ◌∷◌, Option,
  none, some, text_eq, take, select, all, arith, cmp_text_refl,
}
use rivet_durable_streams.Store.Tables.{ProducerState, ProducerRow, Db, find_row, delete_row}
use rivet_durable_streams.Store.Tables.Laws.{find_row-delete_row, find_row-upsert_row}
use rivet_durable_streams.Store.Producers.{
  producer_key, expire_addressed, place_by_age, by_age, delete_each, sweep, get_producer_state,
  commit_producer_state,
}

-- Rows of other producers than `k`.
abbrev other_than : Text → ProducerRow → Bool
other_than k row = not (text_eq row.producer_id k)

find_row-select :
    (p : ProducerRow → Bool) (k : Text) (row : ProducerRow) (rows : List ProducerRow)
    → find_row producer_key k rows ≡ some row
    → p row ≡ true
    → find_row producer_key k (select p rows) ≡ some row
unfolding find_row select
find_row-select p k row [] h t = cc
find_row-select p k row (x ∷ xs) h t = ground (arith, find_row-select p k row xs, ap p)

all-place_by_age :
    (k : Text) (row : ProducerRow) (rows : List ProducerRow)
    → other_than k row ≡ true
    → all (other_than k) rows ≡ true
    → all (other_than k) (place_by_age row rows) ≡ true
unfolding all place_by_age
all-place_by_age k row [] h t = ground arith
all-place_by_age k row (x ∷ xs) h t = ground (arith, all-place_by_age k row xs h)

all-by_age :
    (k : Text) (rows : List ProducerRow)
    → all (other_than k) rows ≡ true
    → all (other_than k) (by_age rows) ≡ true
unfolding all by_age
all-by_age k [] h = refl
all-by_age k (x ∷ xs) h =
    all-place_by_age k x (by_age xs) (ground arith) (all-by_age k xs (ground arith))

all-take :
    (k : Text) (n : ℕ) (rows : List ProducerRow)
    → all (other_than k) rows ≡ true
    → all (other_than k) (take n rows) ≡ true
unfolding all
all-take k zero rows h = refl
all-take k (suc n) [] h = refl
all-take k (suc n) (x ∷ xs) h = ground (arith, all-take k n xs)

-- No expired row of the addressed producer is left for the sweep.
all-expired :
    (k : Text) (t : ℤ) (rows : List ProducerRow)
    → all
        (other_than k)
        (select (λ row. ltb_ℤ row.state.last_updated t) (expire_addressed k t rows))
      ≡ true
unfolding all select expire_addressed
all-expired k t [] = refl
all-expired k t (x ∷ xs) = ground (arith, all-expired k t xs)

find_row-delete_each :
    (k : Text) (xs rows : List ProducerRow)
    → all (other_than k) xs ≡ true
    → find_row producer_key k (delete_each xs rows) ≡ find_row producer_key k rows
unfolding all delete_each
find_row-delete_each k [] rows h = refl
find_row-delete_each k (x ∷ xs) rows h = ground (
  arith,
  find_row-delete_each k xs (delete_row producer_key x.producer_id rows),
  find_row-delete_row producer_key x.producer_id k rows,
)

find_row-sweep :
    (k : Text) (t : ℤ) (rows : List ProducerRow)
    → find_row producer_key k (sweep t (expire_addressed k t rows))
      ≡ find_row producer_key k (expire_addressed k t rows)
unfolding sweep
find_row-sweep k t rows =
    find_row-delete_each k _ _ (all-take k 64 _ (all-by_age k _ (all-expired k t rows)))

find_row_holds :
    (p : ProducerRow → Bool) (k : Text) (rows : List ProducerRow) (row : ProducerRow)
    → find_row producer_key k (select p rows) ≡ some row
    → (p row ≡ true) × (text_eq row.producer_id k ≡ true)
unfolding find_row select
find_row_holds p k [] row h = cc
find_row_holds p k (x ∷ xs) row h = ground (
  arith,
  find_row_holds p k xs row,
  ap p,
  λ (e : x ≡ row). ap (λ (r : ProducerRow). text_eq r.producer_id k) e,
)

expire_addressed_fresh :
    (k : Text) (t : ℤ) (rows : List ProducerRow) (row : ProducerRow)
    → find_row producer_key k (expire_addressed k t rows) ≡ some row
    → ltb_ℤ row.state.last_updated t ≡ false
unfolding expire_addressed
expire_addressed_fresh k t rows row h =
    let (kept, same) =
      find_row_holds (λ r. not (text_eq r.producer_id k && ltb_ℤ r.state.last_updated t)) k rows row
        h in
    not_and kept same
  where
    not_and : {a b : Bool} → not (a && b) ≡ true → a ≡ true → b ≡ false
    not_and {a} {b} h e = ground arith

abbrev state_of : Option ProducerRow → Option ProducerState
state_of none = none
state_of (some row) = some row.state

get_producer_state_lem :
    (k : Text) (t : ℤ) (db : Db)
    → (get_producer_state k t db).0
      ≡ state_of (find_row producer_key k (expire_addressed k t db.producers))
unfolding get_producer_state
get_producer_state_lem k t db = ground (arith, find_row-sweep k t db.producers)

-- A state that is returned has not expired.
pub get_producer_state_fresh :
    (k : Text) (t : ℤ) (db : Db) (s : ProducerState)
    → (get_producer_state k t db).0 ≡ some s
    → ltb_ℤ s.last_updated t ≡ false
get_producer_state_fresh k t db s h =
    fresh_of (find_row producer_key k (expire_addressed k t db.producers)) refl
      (rw (get_producer_state_lem k t db) at h)
  where
    fresh_of :
        (found : Option ProducerRow)
        → find_row producer_key k (expire_addressed k t db.producers) ≡ found
        → state_of found ≡ some s
        → ltb_ℤ s.last_updated t ≡ false
    fresh_of none e q = cc
    fresh_of (some row) e q =
        let r = expire_addressed_fresh k t db.producers row e in
        let z : row.state ≡ s = ground arith in rw (← z) r

committed :
    (k : Text) (db : Db) (s : ProducerState)
    → find_row producer_key k (commit_producer_state k s db).producers
      ≡ some (record { producer_id = k; state = s })
unfolding commit_producer_state
committed k db s = ground (
  arith,
  find_row-upsert_row producer_key k (record { producer_id = k; state = s }) db.producers,
  cmp_text_refl k,
)

-- A state that has not expired is returned as it was committed, whatever else is swept.
pub get_producer_state-commit_producer_state :
    (k : Text) (t : ℤ) (db : Db) (s : ProducerState)
    → ltb_ℤ s.last_updated t ≡ false
    → (get_producer_state k t (commit_producer_state k s db)).0 ≡ some s
unfolding expire_addressed
get_producer_state-commit_producer_state k t db s h =
    rw (get_producer_state_lem k t (commit_producer_state k s db)) (
      ap state_of (
        find_row-select (λ r. not (text_eq r.producer_id k && ltb_ℤ r.state.last_updated t)) k
          (record { producer_id = k; state = s }) (commit_producer_state k s db).producers
          (committed k db s) (ground arith)))
