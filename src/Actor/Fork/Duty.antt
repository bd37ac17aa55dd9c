-- ===== src/Actor/Fork/Duty.antt =====
-- The reference of a fork in the transactions of src/actor/fork.rs and src/actor/maintenance.rs.
use rivet_durable_streams.Prelude.{
  ◌≡◌, refl, sym, ap, ◌∙◌, true, ℤ, Text, Bytes, [], ◌∷◌, Option, none, some, is_some, unwrap_or,
  if◌then◌else◌, text_eq_refl, Result, ok, err, ok_injective, arith,
}
use rivet_durable_streams.Store.Tables.{Meta, GcRelease, ForkIntent, Db, find_row}
use rivet_durable_streams.Store.Tables.Laws.{
  has_row-eq-is_some, find_row-insert_or_ignore, find_row-delete_row,
}
use rivet_durable_streams.Store.Meta.{create_meta, purge}
use rivet_durable_streams.Store.Append.Order.{meta-append_message}
use rivet_durable_streams.Store.Forks.{
  intent_key, release_key, enqueue_gc_release, delete_fork_intent,
}
use rivet_durable_streams.Actor.Types.{Env, ForkAcquireResult}
use rivet_durable_streams.Actor.Maintenance.{settle_intent, owe_release, purge_stream}
use rivet_durable_streams.Actor.Fork.Create.{
  ForkCreateOptions, Grant, append_nonempty, append_both, fork_meta, creation_tx,
}

-- The release of the edge is queued: the one given, unless one of the edge was queued before, which
-- then stays.
abbrev pub IsQueued : GcRelease → Db → Db → Type 0
IsQueued release before after =
    find_row release_key release.edge_id after.gc_releases
    ≡ some (unwrap_or (find_row release_key release.edge_id before.gc_releases) release)

first_stays :
    (row : GcRelease) (found : Option GcRelease)
    → (if is_some found then found else some row) ≡ some (unwrap_or found row)
first_stays row none = refl
first_stays row (some release) = refl

pub enqueue_gc_release-IsQueued :
    (edge_id parent_path : Text) (source_generation : Option Text) (db : Db)
    → IsQueued
        (record {
          edge_id = edge_id;
          parent_path = parent_path;
          source_generation = source_generation;
        })
        db
        (enqueue_gc_release edge_id parent_path source_generation db)
unfolding enqueue_gc_release
enqueue_gc_release-IsQueued edge_id parent_path source_generation db =
    let row : GcRelease = record {
      edge_id = edge_id;
      parent_path = parent_path;
      source_generation = source_generation;
    } in
    find_row-insert_or_ignore release_key row db.gc_releases
    ∙ rw (has_row-eq-is_some release_key edge_id db.gc_releases)
        (first_stays row (find_row release_key edge_id db.gc_releases))

-- Purging a fork leaves no stream, message, producer or reference of it, and owes its source the
-- release of the fork's edge and of the generation that it was forked from, at the source's path,
-- unless a release of that edge was queued before, which then stays.
pub purge_stream_owes :
    (meta : Meta) (parent_path edge_id : Text) (db : Db)
    → meta.forked_from ≡ some parent_path
    → meta.fork_edge_id ≡ some edge_id
    → let after = purge_stream meta db in
      IsQueued
        (record {
          edge_id = edge_id;
          parent_path = parent_path;
          source_generation = meta.fork_source_gen;
        })
        db
        after
      × (after.meta ≡ none)
      × (after.messages ≡ [])
      × (after.producers ≡ [])
      × (after.fork_edges ≡ [])
unfolding purge_stream owe_release purge
purge_stream_owes meta parent_path edge_id db f e = (
  rw (f, e) (enqueue_gc_release-IsQueued edge_id parent_path meta.fork_source_gen db),
  refl,
  refl,
  refl,
  refl,
)

-- An intent whose reference was acquired, though no stream was created, is replaced by the release.
pub settle_intent_owes :
    (env : Env) (intent : ForkIntent) (acquired : ForkAcquireResult) (db : Db)
    → acquired.is_ok ≡ true
    → IsQueued
        (record {
          edge_id = intent.edge_id;
          parent_path = intent.parent_path;
          source_generation = acquired.source_generation;
        })
        db
        (settle_intent env intent acquired db)
      × (find_row intent_key intent.edge_id (settle_intent env intent acquired db).fork_intents
          ≡ none)
unfolding settle_intent delete_fork_intent
settle_intent_owes env intent acquired db h = (
  rw h
      (enqueue_gc_release-IsQueued intent.edge_id intent.parent_path acquired.source_generation db),
  find_row-delete_row intent_key intent.edge_id intent.edge_id _
      ∙ rw (text_eq_refl intent.edge_id) refl,
)

pub meta-append_nonempty :
    (tail : Text) (payload : Bytes) (now : ℤ) (db after : Db) (offset : Text) (m : Meta)
    → append_nonempty tail payload now db ≡ ok (offset, after)
    → db.meta ≡ some m
    → (next : Text) × (after.meta ≡ some (record m { current_offset = next }))
unfolding append_nonempty
meta-append_nonempty tail [] now db after offset m h e =
    (m.current_offset, ap (λ (p : Text × Db). p.1.meta) (sym (ok_injective _ _ h)) ∙ e)
meta-append_nonempty tail (x ∷ xs) now db after offset m h e =
    (offset, meta-append_message tail (x ∷ xs) now db after offset m h e)

meta-append_both :
    (tail : Text) (first second : Bytes) (now : ℤ) (db after : Db) (offset : Text) (m : Meta)
    → append_both tail first second now db ≡ ok (offset, after)
    → db.meta ≡ some m
    → (next : Text) × (after.meta ≡ some (record m { current_offset = next }))
unfolding append_both
meta-append_both tail first second now db after offset m h e =
    second_part (append_nonempty tail first now db) refl h
  where
    second_part :
        (r : Result (Text × Db))
        → append_nonempty tail first now db ≡ r
        → (elim r [ err e ↦ err e | ok (offset, after) ↦ append_nonempty offset second now after ])
          ≡ ok (offset, after)
        → (next : Text) × (after.meta ≡ some (record m { current_offset = next }))
    second_part (err x) q h = cc
    second_part (ok (middle, between)) q h =
        let (n, k) = meta-append_nonempty tail first now db between middle m q e in
        meta-append_nonempty middle second now between after offset
          (record m { current_offset = n }) h k

-- The end of a creation.
abbrev finished : Text → Result (Text × Db) → Result (Text × Db)
finished edge_id r = elim r [
  | err e ↦ err e
  | ok (current_offset, after) ↦ ok (current_offset, delete_fork_intent edge_id after)
]

creation_tx-finished :
    (generation : Text) (options : ForkCreateOptions) (grant : Grant) (prefix payload : Bytes)
    (db : Db)
    → db.meta ≡ none
    → creation_tx generation options grant prefix payload db
      ≡ finished grant.edge_id (
          append_both grant.fork_offset prefix payload options.now_ms
            (record db { meta = some (fork_meta generation options grant) }))
unfolding creation_tx create_meta
creation_tx-finished generation options grant prefix payload db e = ground arith

finished-ok :
    (edge_id : Text) (r : Result (Text × Db)) (offset : Text) (after : Db)
    → finished edge_id r ≡ ok (offset, after)
    → (before : Db) × (r ≡ ok (offset, before)) × (after ≡ delete_fork_intent edge_id before)
finished-ok edge_id (err e) offset after h = cc
finished-ok edge_id (ok (current, before)) offset after h =
    let t = ok_injective _ _ h in
    (before, ap (λ (o : Text). ok (o, before)) (ap (λ p. p.0) t), sym (ap (λ p. p.1) t))

-- Where there is no stream, a creation that commits has made the fork's row and forgets the intent.
pub creation_tx_parts :
    (generation : Text) (options : ForkCreateOptions) (grant : Grant) (prefix payload : Bytes)
    (db after : Db) (offset : Text)
    → db.meta ≡ none
    → creation_tx generation options grant prefix payload db ≡ ok (offset, after)
    → (before : Db) × (next : Text) × (before.meta
        ≡ some (record (fork_meta generation options grant) { current_offset = next }))
      × (after ≡ delete_fork_intent grant.edge_id before)
creation_tx_parts generation options grant prefix payload db after offset e h =
    let meta = fork_meta generation options grant in
    let fresh : Db = record db { meta = some meta } in
    let r = append_both grant.fork_offset prefix payload options.now_ms fresh in
    let (before, q, same) =
      finished-ok grant.edge_id r offset after
        (sym (creation_tx-finished generation options grant prefix payload db e) ∙ h) in
    let (next, k) =
      meta-append_both grant.fork_offset prefix payload options.now_ms fresh before offset meta q
        refl in
    (before, next, k, same)

-- Where there is no stream, a creation that commits hands the reference from the intent to the
-- stream, which names its source and the edge.
pub creation_tx_holds :
    (generation : Text) (options : ForkCreateOptions) (grant : Grant) (prefix payload : Bytes)
    (db after : Db) (offset : Text)
    → db.meta ≡ none
    → creation_tx generation options grant prefix payload db ≡ ok (offset, after)
    → (m : Meta) × (after.meta ≡ some m)
      × (m.forked_from ≡ some options.parent_path)
      × (m.fork_edge_id ≡ some grant.edge_id)
      × (find_row intent_key grant.edge_id after.fork_intents ≡ none)
creation_tx_holds generation options grant prefix payload db after offset e h =
    let (before, next, k, same) =
      creation_tx_parts generation options grant prefix payload db after offset e h in
    (
      record (fork_meta generation options grant) { current_offset = next },
      ap (λ (d : Db). d.meta) same ∙ (unfold delete_fork_intent in k),
      (unfold fork_meta in refl),
      (unfold fork_meta in refl),
      ap (λ (d : Db). find_row intent_key grant.edge_id d.fork_intents) same
          ∙ (unfold delete_fork_intent in
              find_row-delete_row intent_key grant.edge_id grant.edge_id before.fork_intents
              ∙ rw (text_eq_refl grant.edge_id) refl),
    )
