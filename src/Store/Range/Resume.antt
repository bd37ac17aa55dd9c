-- ===== src/Store/Range/Resume.antt =====
-- The page of `read_messages_range` (src/store.rs) and what is behind its last message.
use Prim.Native.Nat.Ordering.{lt}
use rivet_durable_streams.Prelude.{
  ℕ, zero, suc, ◌≤◌, ◌≡◌, refl, Bool, true, false, Text, List, [], ◌∷◌, ◌++◌, Option, some, text_lt,
  cmp_text, length, last, take, drop, select, arith, unwrap_or, gt_of_lt_text, cmp_text_refl,
  lt_trans_text, take-append-drop,
}
use rivet_durable_streams.Store.Tables.{Message, Db}
use rivet_durable_streams.Store.Append.Order.{IsAscending, After}
use rivet_durable_streams.Store.Range.{max_read_rows, normalized, in_range, read_messages_range}
use rivet_durable_streams.Store.Range.Scan.{
  last_of, page_size, wanted, head-le-last, lt_le_text, IsAscending-select, fitting-le,
}
use rivet_durable_streams.Store.Range.Pages.{read_messages_range_lem}

select_tighter :
    (a o : Text) (cap : Option Text) (ms : List Message)
    → cmp_text a o ≡ lt
    → select (in_range o cap) ms ≡ select (λ m. text_lt o m.offset) (select (in_range a cap) ms)
unfolding select in_range
select_tighter a o cap [] h = refl
select_tighter a o cap (m ∷ ms) h =
    ground (arith, select_tighter a o cap ms h, lt_trans_text a o m.offset h)

select_all :
    (t o : Text) (ms : List Message) → t ≡ o → After t ms → select (λ m. text_lt o m.offset) ms ≡ ms
unfolding select
select_all t o [] e h = refl
select_all t o (m ∷ ms) e h =
    let r : text_lt o m.offset ≡ true = rw (← e) (ground arith) in
    rw (r, select_all t o ms e h.1) refl

select_from :
    (k : ℕ) (m : Message) (ms : List Message) (o : Text)
    → IsAscending (m ∷ ms)
    → last_of k ms (some m.offset) ≡ some o
    → k ≤ length ms
    → select (λ n. text_lt o n.offset) (m ∷ ms) ≡ drop k ms
unfolding select
select_from zero m ms o h e b =
    let r : m.offset ≡ o = ground arith in
    let k : text_lt o m.offset ≡ false = rw (← r) (ground (arith, cmp_text_refl m.offset)) in
    rw k (select_all m.offset o ms r h.0)
select_from (suc k) m [] o h e b = absurd (omega arith)
select_from (suc k) m (n ∷ ms) o h e b =
    let c = lt_le_text m.offset n.offset o h.0.0 (head-le-last k n ms o h.1 e) in
    let r : text_lt o m.offset ≡ false = ground (arith, gt_of_lt_text m.offset o c) in
    rw r (select_from k n ms o h.1 e (omega arith))

last-take :
    (k : ℕ) (m l : Message) (ms : List Message)
    → last (take (suc k) (m ∷ ms)) ≡ some l
    → last_of k ms (some m.offset) ≡ some l.offset
last-take zero m l ms e = ground (arith)
last-take (suc k) m l [] e = ground (arith)
last-take (suc k) m l (n ∷ ms) e = last-take k n l ms e

After-in_range :
    (a : Text) (cap : Option Text) (ms : List Message) → After a (select (in_range a cap) ms)
unfolding select in_range
After-in_range a cap [] = tt
After-in_range a cap (m ∷ ms) = ground (arith, After-in_range a cap ms)

After-last :
    (k : ℕ) (a : Text) (rows : List Message) (l : Message)
    → After a rows
    → last (take k rows) ≡ some l
    → cmp_text a l.offset ≡ lt
After-last zero a rows l h e = cc
After-last (suc k) a [] l h e = cc
After-last (suc zero) a (m ∷ ms) l h e = ground arith
After-last (suc (suc k)) a (m ∷ []) l h e = ground arith
After-last (suc (suc k)) a (m ∷ n ∷ ms) l h e = After-last (suc k) a (n ∷ ms) l h.1 e

select_from-last :
    (k : ℕ) (rows : List Message) (l : Message)
    → IsAscending rows
    → k ≤ length rows
    → last (take k rows) ≡ some l
    → select (λ n. text_lt l.offset n.offset) rows ≡ drop k rows
select_from-last zero rows l h b e = cc
select_from-last (suc k) [] l h b e = cc
select_from-last (suc k) (m ∷ ms) l h b e =
    select_from k m ms l.offset h (last-take k m l ms e) (omega arith)

-- On an ordered log and a limit of at most `MAX_READ_ROWS`, a page and what is behind its last
-- message make up what was wanted. (The last message's offset is not `-1`, which stands for the
-- start.)
pub read_messages_range-resumes :
    (after cap : Option Text) (limit budget : ℕ) (allow : Bool) (db : Db) (l : Message)
    → IsAscending db.messages
    → limit ≤ max_read_rows
    → last (read_messages_range after cap limit budget allow db).messages ≡ some l
    → normalized (some l.offset) ≡ some l.offset
    → (read_messages_range after cap limit budget allow db).messages
        ++ wanted (some l.offset) cap db
      ≡ wanted after cap db
read_messages_range-resumes after cap limit budget allow db l h b e n =
    let a = unwrap_or (normalized after) [] in
    let rows = wanted after cap db in
    let k = page_size limit budget allow rows in
    let page = read_messages_range_lem after cap limit budget allow db h b in
    let f : last (take k rows) ≡ some l = rw page at e in
    rw
      (
        page,
        n,
        select_tighter a l.offset cap db.messages
            (After-last k a rows l (After-in_range a cap db.messages) f),
        select_from-last k rows l (IsAscending-select (in_range a cap) db.messages h)
            (fitting-le limit budget allow 0 0 rows) f,
      )
      (take-append-drop k rows)
