-- ===== src/Tests/Duty.antt =====
-- Concrete inputs for the theorems on the duty of a fork to release its source.
use rivet_durable_streams.Prelude.{
  ◌≡◌, refl, true, false, pos, Text, [], ◌∷◌, none, some, codes, cmp_text, Result, ok, err,
}
use rivet_durable_streams.Protocol.Offset.{advance_offset}
use rivet_durable_streams.Store.Tables.{
  Meta, ForkIntent, Db, empty_db, find_row, insert_row, has_row,
}
use rivet_durable_streams.Store.Forks.{intent_key}
use rivet_durable_streams.Actor.Types.{ForkAcquireResult, World}
use rivet_durable_streams.Actor.Maintenance.{purge_stream}
use rivet_durable_streams.Actor.Maintenance.Retries.{Retries}
use rivet_durable_streams.Actor.Fork.Create.{ForkCreateOptions, Grant, creation_tx}
use rivet_durable_streams.Actor.Fork.Duty.{IsQueued, purge_stream_owes, creation_tx_holds}
use rivet_durable_streams.Tests.Data.{world, meta_at, one_db, first_offset}

abbrev fork : Meta
fork = record (meta_at first_offset) {
  forked_from = some (codes "/p");
  fork_edge_id = some (codes "e");
}

purge_stream_owes_example :
    IsQueued
      (record { edge_id = codes "e"; parent_path = codes "/p"; source_generation = none })
      one_db
      (purge_stream fork one_db)
    × ((purge_stream fork one_db).meta ≡ none)
    × ((purge_stream fork one_db).messages ≡ [])
    × ((purge_stream fork one_db).producers ≡ [])
    × ((purge_stream fork one_db).fork_edges ≡ [])
purge_stream_owes_example = purge_stream_owes fork (codes "/p") (codes "e") one_db refl refl

abbrev intent : ForkIntent
intent = record { edge_id = codes "e"; parent_path = codes "/p"; params_key = codes "k" }

abbrev intent_db : Db
intent_db = record empty_db { fork_intents = intent ∷ [] }

abbrev granted : ForkAcquireResult
granted = record {
  is_ok = true;
  error = none;
  fork_offset = some first_offset;
  content_type = none;
  ttl_seconds = none;
  expires_at = none;
  source_generation = some (codes "g");
}

abbrev options : ForkCreateOptions
options = record {
  parent_path = codes "/p";
  fork_offset = none;
  fork_sub_offset = none;
  content_type = none;
  ttl_seconds = none;
  expires_at = none;
  closed = false;
  body = 7 ∷ [];
  now_ms = pos 5;
}

abbrev grant : Grant
grant = record {
  edge_id = codes "e";
  fork_offset = first_offset;
  source_generation = codes "g";
  content_type = codes "text/plain";
  ttl_seconds = none;
  expires_at = none;
}

abbrev creation : Result (Text × Db)
creation = creation_tx (codes "h") options grant [] (7 ∷ []) intent_db

abbrev tail_of : Result (Text × Db) → Text
tail_of (ok (offset, after)) = offset
tail_of (err e) = []

abbrev tables_of : Result (Text × Db) → Db
tables_of (ok (offset, after)) = after
tables_of (err e) = intent_db

creation_tx_holds_example :
    (m : Meta) × ((tables_of creation).meta ≡ some m)
    × (m.forked_from ≡ some (codes "/p"))
    × (m.fork_edge_id ≡ some (codes "e"))
    × (find_row intent_key (codes "e") (tables_of creation).fork_intents ≡ none)
unfolding creation_tx codes cmp_text advance_offset insert_row has_row
creation_tx_holds_example =
    creation_tx_holds (codes "h") options grant [] (7 ∷ []) intent_db (tables_of creation)
      (tail_of creation) refl refl

abbrev owing : World (Unit {0})
owing = world (record one_db {
  gc_releases =
      record { edge_id = codes "e"; parent_path = codes "/p"; source_generation = none } ∷ [];
})
