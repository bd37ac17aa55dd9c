-- ===== src/Store/Range/Limits.antt =====
-- The pages of `read_messages_range` (src/store.rs) and their limits.
use rivet_durable_streams.Prelude.{
  ℕ, ◌+◌, ◌≤◌, ◌<◌, min, ◌≡◌, refl, ◌⊎◌, inl, Bool, true, Text, List, [], ◌∷◌, Option, length, take,
  arith, length-take,
}
use rivet_durable_streams.Store.Tables.{Message, Db}
use rivet_durable_streams.Store.Append.Order.{IsAscending}
use rivet_durable_streams.Store.Range.{max_read_rows, read_messages_range, saturating_add_usize}
use rivet_durable_streams.Store.Range.Scan.{fitting, page_size, wanted, fitting-le-limit}
use rivet_durable_streams.Store.Range.Pages.{read_messages_range_lem}

-- The bytes of some messages.
pub size : List Message → ℕ
size [] = 0
size (m ∷ ms) = length m.content + size ms

size-fitting :
    (limit budget : ℕ) (allow : Bool) (selected bytes : ℕ) (ms : List Message)
    → 0 < selected
    → bytes ≤ budget
    → budget < 18446744073709551615
    → bytes + size (take (fitting limit budget allow selected bytes ms) ms) ≤ budget
unfolding fitting size saturating_add_usize
size-fitting limit budget allow selected bytes [] p h c = omega arith
size-fitting limit budget allow selected bytes (m ∷ ms) p h c = ground (
  arith,
  size-fitting limit budget allow (selected + 1)
      (min (bytes + length m.content) 18446744073709551615) ms (omega arith),
)

fitting_over :
    (limit budget : ℕ) (allow : Bool) (selected bytes : ℕ) (ms : List Message)
    → 0 < selected
    → budget < bytes
    → budget < 18446744073709551615
    → fitting limit budget allow selected bytes ms ≡ 0
unfolding fitting saturating_add_usize
fitting_over limit budget allow selected bytes [] p h c = refl
fitting_over limit budget allow selected bytes (m ∷ ms) p h c = ground arith

-- Within the limits: the bytes fit the budget, or there is one message, which was allowed.
abbrev pub IsPage : ℕ → ℕ → Bool → List Message → Type 0
IsPage limit budget allow ms =
    (length ms ≤ limit) × ((size ms ≤ budget) ⊎ ((allow ≡ true) × (length ms ≡ 1)))

take_page :
    (limit budget : ℕ) (allow : Bool) (ms : List Message)
    → budget < 18446744073709551615
    → (size (take (fitting limit budget allow 0 0 ms) ms) ≤ budget)
      ⊎ ((allow ≡ true) × (length (take (fitting limit budget allow 0 0 ms) ms) ≡ 1))
unfolding fitting size saturating_add_usize
take_page limit budget allow [] c = inl (omega arith)
take_page limit budget allow (m ∷ ms) c =
    let bytes = min (0 + length m.content) 18446744073709551615 in
    ground (
      arith,
      size-fitting limit budget allow 1 bytes ms (omega arith),
      fitting_over limit budget allow 1 bytes ms (omega arith),
    )

-- On an ordered log, a limit of at most `MAX_READ_ROWS` and a budget below 2 ^ 64 - 1, a page
-- stays within the row limit and the byte budget, but for one oversized first message where that
-- is allowed.
pub read_messages_range-IsPage :
    (after cap : Option Text) (limit budget : ℕ) (allow : Bool) (db : Db)
    → IsAscending db.messages
    → limit ≤ max_read_rows
    → budget < 18446744073709551615
    → IsPage limit budget allow (read_messages_range after cap limit budget allow db).messages
read_messages_range-IsPage after cap limit budget allow db h b c =
    let rows = wanted after cap db in
    let k = page_size limit budget allow rows in
    rw (read_messages_range_lem after cap limit budget allow db h b) (
      omega (arith, length-take k rows, fitting-le-limit limit budget allow 0 0 rows (omega arith)),
      take_page limit budget allow rows c,
    )
