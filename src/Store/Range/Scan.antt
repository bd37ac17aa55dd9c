-- ===== src/Store/Range/Scan.antt =====
-- The loop of `read_messages_range` (src/store.rs).
use native.Mathlib.Nat.{zero-add}
use Prim.Native.Nat.Ordering.{lt}
use rivet_durable_streams.Prelude.{
  ℕ, zero, suc, ◌+◌, ◌≤◌, ◌<◌, ◌≡◌, refl, ap, ◌∙◌, Bool, true, false, not, ◌&&◌, ◌||◌, Text, List,
  [], ◌∷◌, Option, none, some, text_le, cmp_text, if◌then◌else◌, length, take, select, ltb, ◌==◌,
  arith, gt_of_lt_text, cmp_text_refl, eq_of_cmp_text, lt_trans_text, length-take, unwrap_or,
}
use rivet_durable_streams.Store.Tables.{Message, Db}
use rivet_durable_streams.Store.Append.Order.{IsAscending, After}
use rivet_durable_streams.Store.Range.{normalized, in_range, scan, batch_upto, saturating_add_usize}

-- How many more messages the limits let through, after `selected` of `bytes` bytes.
unfoldable pub fitting : ℕ → ℕ → Bool → ℕ → ℕ → List Message → ℕ
fitting limit budget allow selected bytes [] = 0
fitting limit budget allow selected bytes (m ∷ ms) =
    let more = suc (
      fitting limit budget allow (selected + 1) (saturating_add_usize bytes (length m.content))
        ms) in
    if selected == limit
    then 0
    else if (ltb 0 selected || not allow)
        && ltb budget (saturating_add_usize bytes (length m.content))
    then 0
    else more

abbrev pub last_of : ℕ → List Message → Option Text → Option Text
last_of zero ms o = o
last_of (suc k) [] o = o
last_of (suc k) (m ∷ ms) o = last_of k ms (some m.offset)

pub scan-fitting :
    (limit budget : ℕ) (allow : Bool) (selected bytes : ℕ) (o : Option Text) (ms : List Message)
    → scan limit budget allow selected bytes o ms ≡ (
      selected + fitting limit budget allow selected bytes ms,
      last_of (fitting limit budget allow selected bytes ms) ms o,
    )
unfolding scan fitting
scan-fitting limit budget allow selected bytes o [] = ground arith
scan-fitting limit budget allow selected bytes o (m ∷ ms) = ground (
  arith,
  scan-fitting limit budget allow (selected + 1) (saturating_add_usize bytes (length m.content))
      (some m.offset) ms,
)

pub select_above :
    (t o : Text) (ms : List Message) → t ≡ o → After t ms → select (λ m. text_le m.offset o) ms ≡ []
unfolding select
select_above t o [] e h = refl
select_above t o (m ∷ ms) e h =
    let r : text_le m.offset o ≡ false = rw (← e) (ground (arith, gt_of_lt_text t m.offset)) in
    rw r (select_above t o ms e h.1)

pub lt_le_text : (s t u : Text) → cmp_text s t ≡ lt → text_le t u ≡ true → cmp_text s u ≡ lt
lt_le_text s t u h k = ground (arith, lt_trans_text s t u, eq_of_cmp_text t u)

pub head-le-last :
    (k : ℕ) (m : Message) (ms : List Message) (o : Text)
    → IsAscending (m ∷ ms)
    → last_of k ms (some m.offset) ≡ some o
    → text_le m.offset o ≡ true
head-le-last zero m ms o h e = ground (arith, cmp_text_refl m.offset)
head-le-last (suc k) m [] o h e = ground (arith, cmp_text_refl m.offset)
head-le-last (suc k) m (n ∷ ms) o h e =
    let r = lt_le_text m.offset n.offset o h.0.0 (head-le-last k n ms o h.1 e) in ground arith

-- Up to the offset of the `k`-th row stand the first `k` rows.
pub select_upto :
    (k : ℕ) (m : Message) (ms : List Message) (o : Text)
    → IsAscending (m ∷ ms)
    → last_of k ms (some m.offset) ≡ some o
    → k ≤ length ms
    → select (λ n. text_le n.offset o) (m ∷ ms) ≡ take (suc k) (m ∷ ms)
unfolding select
select_upto zero m ms o h e b =
    let r : m.offset ≡ o = ground arith in
    let k : text_le m.offset o ≡ true = rw (← r) (ground (arith, cmp_text_refl m.offset)) in
    rw k (ap (◌∷◌ m) (select_above m.offset o ms r h.0))
select_upto (suc k) m [] o h e b = absurd (omega arith)
select_upto (suc k) m (n ∷ ms) o h e b =
    rw (head-le-last (suc k) m (n ∷ ms) o h e)
      (ap (◌∷◌ m) (select_upto k n ms o h.1 e (omega arith)))

pub fitting-le :
    (limit budget : ℕ) (allow : Bool) (selected bytes : ℕ) (ms : List Message)
    → fitting limit budget allow selected bytes ms ≤ length ms
unfolding fitting
fitting-le limit budget allow selected bytes [] = omega arith
fitting-le limit budget allow selected bytes (m ∷ ms) = ground (
  arith,
  fitting-le limit budget allow (selected + 1) (saturating_add_usize bytes (length m.content)) ms,
)

pub fitting-le-limit :
    (limit budget : ℕ) (allow : Bool) (selected bytes : ℕ) (ms : List Message)
    → selected ≤ limit
    → selected + fitting limit budget allow selected bytes ms ≤ limit
unfolding fitting
fitting-le-limit limit budget allow selected bytes [] h = omega arith
fitting-le-limit limit budget allow selected bytes (m ∷ ms) h = ground (
  arith,
  fitting-le-limit limit budget allow (selected + 1) (saturating_add_usize bytes (length m.content))
      ms,
)

-- The loop never looks past `limit` rows, and the scan reads one row more.
pub fitting-take :
    (limit budget : ℕ) (allow : Bool) (selected bytes n : ℕ) (ms : List Message)
    → selected ≤ limit
    → limit < selected + n
    → fitting limit budget allow selected bytes (take n ms)
      ≡ fitting limit budget allow selected bytes ms
unfolding fitting
fitting-take limit budget allow selected bytes zero ms h k = absurd (omega arith)
fitting-take limit budget allow selected bytes (suc n) [] h k = refl
fitting-take limit budget allow selected bytes (suc n) (m ∷ ms) h k = ground (
  arith,
  fitting-take limit budget allow (selected + 1) (saturating_add_usize bytes (length m.content)) n
      ms,
)

pub After-select :
    (p : Message → Bool) (t : Text) (ms : List Message) → After t ms → After t (select p ms)
unfolding select
After-select p t [] h = tt
After-select p t (m ∷ ms) h = ground (arith, After-select p t ms h.1)

pub IsAscending-select :
    (p : Message → Bool) (ms : List Message) → IsAscending ms → IsAscending (select p ms)
unfolding select
IsAscending-select p [] h = tt
IsAscending-select p (m ∷ ms) h =
    ground (arith, After-select p m.offset ms h.0, IsAscending-select p ms h.1)

-- The rows that a read asks for.
abbrev pub wanted : Option Text → Option Text → Db → List Message
wanted after cap db = select (in_range (unwrap_or (normalized after) []) cap) db.messages

-- How many of them the limits let through.
abbrev pub page_size : ℕ → ℕ → Bool → List Message → ℕ
page_size limit budget allow rows = fitting limit budget allow 0 0 rows

pub last_of-some :
    (k : ℕ) (ms : List Message) (t : Text) → (o : Text) × (last_of k ms (some t) ≡ some o)
last_of-some zero ms t = (t, refl)
last_of-some (suc k) [] t = (t, refl)
last_of-some (suc k) (m ∷ ms) t = last_of-some k ms m.offset

pub batch_upto-take :
    (k scanned : ℕ) (rows : List Message)
    → IsAscending rows
    → k ≤ length rows
    → batch_upto rows scanned k (last_of k rows none)
      ≡ record { messages = take k rows; capped = ltb k scanned }
unfolding batch_upto
batch_upto-take zero scanned rows h b = refl
batch_upto-take (suc k) scanned [] h b = absurd (omega arith)
batch_upto-take (suc k) scanned (m ∷ ms) h b =
    let (o, e) = last_of-some k ms m.offset in
    rw (e, batch_upto)
      (λ i. record {
        messages = select_upto k m ms o h e (omega arith) i;
        capped = ltb (suc k) scanned;
      })

pub last_of-take :
    (k n : ℕ) (ms : List Message) (o : Option Text)
    → k ≤ n
    → last_of k (take n ms) o ≡ last_of k ms o
last_of-take zero n ms o h = refl
last_of-take (suc k) zero ms o h = elim h [ ]
last_of-take (suc k) (suc n) [] o h = refl
last_of-take (suc k) (suc n) (m ∷ ms) o h = last_of-take k n ms (some m.offset) (omega arith)

pub scan_page :
    (limit budget n : ℕ) (allow : Bool) (rows : List Message)
    → IsAscending rows
    → limit < n
    → let k = page_size limit budget allow rows in
      let found = scan limit budget allow 0 0 none (take n rows) in
      batch_upto rows (length (take n rows)) found.0 found.1
      ≡ record { messages = take k rows; capped = ltb k (length rows) }
scan_page limit budget n allow rows h b =
    let k = page_size limit budget allow rows in
    let c : k ≤ limit = omega (arith, fitting-le-limit limit budget allow 0 0 rows (omega arith)) in
    let d : ltb k (length (take n rows)) ≡ ltb k (length rows) =
      ground (arith, length-take n rows) in
    rw
      (
        scan-fitting limit budget allow 0 0 none (take n rows),
        zero-add,
        fitting-take limit budget allow 0 0 n rows (omega arith) (omega arith),
        last_of-take k n rows none (omega arith),
      )
      (batch_upto-take k (length (take n rows)) rows h (fitting-le limit budget allow 0 0 rows)
        ∙ λ i. record { messages = take k rows; capped = d i })
