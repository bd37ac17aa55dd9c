-- ===== src/Store/Meta.antt =====
-- src/store.rs: the `meta` row: expiry, creation and the updates of single columns.
use rivet_durable_streams.Prelude.{
  ◌*◌, Bool, true, false, ℤ, clamp_i64, sub_ℕ, pos_part, neg_part, leb_ℤ, min_ℤ, i64_min,
  saturating_add, Text, Option, none, some, is_some, is_some_and, unwrap_or, or_else, if◌then◌else◌,
  [], Result, ok, err,
}
use rivet_durable_streams.Protocol.Offset.{zero_offset}
use rivet_durable_streams.Store.Tables.{Meta, Db}
use rivet_durable_streams.Store.Platform.{Platform}

-- `i64::saturating_mul(1_000)`
unfoldable pub saturating_mul_1000 : ℤ → ℤ
saturating_mul_1000 n = clamp_i64 (sub_ℕ (pos_part n * 1000) (neg_part n * 1000))

module _ (p : Platform) where
  -- An unreadable `expires_at` counts as long past.
  unfoldable pub absolute_expiry : Option Text → Option ℤ
  absolute_expiry none = none
  absolute_expiry (some expires_at) = some (unwrap_or (p.parse_rfc3339 expires_at) i64_min)

  unfoldable pub sliding_expiry : ℤ → Option ℤ → Option ℤ
  unfolding saturating_add saturating_mul_1000
  sliding_expiry last_accessed_at none = none
  sliding_expiry last_accessed_at (some seconds) =
      some (saturating_add last_accessed_at (saturating_mul_1000 seconds))

  unfoldable pub earlier : Option ℤ → Option ℤ → Option ℤ
  earlier (some left) (some right) = some (min_ℤ left right)
  earlier (some value) none = some value
  earlier none (some value) = some value
  earlier none none = none

  unfoldable pub expiry_time : Meta → Option ℤ
  unfolding absolute_expiry sliding_expiry earlier
  expiry_time meta =
      earlier (absolute_expiry meta.expires_at)
        (sliding_expiry meta.last_accessed_at meta.ttl_seconds)

  unfoldable pub is_expired : Meta → ℤ → Bool
  unfolding expiry_time
  is_expired meta now_ms = is_some_and (expiry_time meta) (λ expiry. leb_ℤ expiry now_ms)

-- The arguments of `create_meta` after the transaction; `generation` is the new random identifier.
unfoldable pub new_meta :
    Text
    → Option Text
    → Option ℤ
    → Option Text
    → Bool
    → ℤ
    → Option Text
    → Option Text
    → Option ℤ
    → Option Text
    → Option Text
    → Meta
new_meta generation content_type ttl_seconds expires_at closed now_ms forked_from fork_offset
      fork_sub_offset fork_edge_id fork_source_gen =
    record {
      generation = generation;
      content_type = content_type;
      ttl_seconds = ttl_seconds;
      expires_at = expires_at;
      closed = closed;
      closed_by = none;
      current_offset =
          if is_some forked_from then unwrap_or fork_offset zero_offset else zero_offset;
      last_seq = none;
      created_at = now_ms;
      last_accessed_at = now_ms;
      forked_from = forked_from;
      fork_offset = fork_offset;
      fork_sub_offset = fork_sub_offset;
      fork_edge_id = fork_edge_id;
      fork_source_gen = fork_source_gen;
      soft_deleted = false;
    }

-- The INSERT of the row with id 1 fails if there is one.
unfoldable pub create_meta : Meta → Db → Result Db
create_meta meta db = elim db.meta [
  | none ↦ ok (record db { meta = some meta })
  | some _ ↦ err "UNIQUE constraint failed: meta.id"
]

-- UPDATE meta … WHERE id = 1
unfoldable pub update_meta : (Meta → Meta) → Db → Db
update_meta f db = elim db.meta [ none ↦ db | some meta ↦ record db { meta = some (f meta) } ]

unfoldable pub touch : ℤ → Db → Db
unfolding update_meta
touch now_ms = update_meta (λ meta. record meta { last_accessed_at = now_ms })

unfoldable pub set_last_seq : Text → Db → Db
unfolding update_meta
set_last_seq seq = update_meta (λ meta. record meta { last_seq = some seq })

-- `closed_by = COALESCE(?, closed_by)`
unfoldable pub set_closed : Option Text → Db → Db
unfolding update_meta
set_closed closed_by =
    update_meta
      (λ meta. record meta { closed = true; closed_by = or_else closed_by meta.closed_by })

unfoldable pub set_soft_deleted : Db → Db
unfolding update_meta
set_soft_deleted = update_meta (λ meta. record meta { soft_deleted = true })

-- The fork intents and the releases that are still to be sent survive a purge.
unfoldable pub purge : Db → Db
purge db = record db { meta = none; messages = []; producers = []; fork_edges = [] }
