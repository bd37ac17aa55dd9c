-- ===== src/Tests/Forks.antt =====
-- Concrete inputs for the theorems on src/actor/fork.rs.
use rivet_durable_streams.Prelude.{
  ◌≡◌, refl, Bool, true, ℤ, pos, Bytes, [], ◌∷◌, none, some, codes, cmp_text, Result, ok, err,
  arith,
}
use rivet_durable_streams.Protocol.Offset.Order.{offset_text}
use rivet_durable_streams.Store.Tables.{Meta, ForkEdge, Db, place_row, has_row}
use rivet_durable_streams.Store.Append.{append_message}
use rivet_durable_streams.Store.Forks.{get_fork_edge}
use rivet_durable_streams.Actor.Types.{
  World, ForkAcquire, ForkAcquireResult, ForkRelease, not_acquired,
}
use rivet_durable_streams.Actor.Lifecycle.{delete_tx}
use rivet_durable_streams.Actor.Fork.{fork_acquire, is_fork_point}
use rivet_durable_streams.Actor.Fork.Points.{overlong, is_fork_point-overlong}
use rivet_durable_streams.Actor.Fork.References.{fork_acquire_repeats}
use rivet_durable_streams.Actor.Fork.Releases.{delete_tx_keeps_source}
use rivet_durable_streams.Tests.Data.{env, world, meta_at, one_db, first_offset}

abbrev action : ForkAcquire
action = record { edge_id = codes "e"; fork_offset = none; content_type_provided = none }

abbrev result_of : Result ForkAcquireResult × World (Unit {0}) → ForkAcquireResult
result_of (ok result, w) = result
result_of (err e, w) = not_acquired []

abbrev first_answer : Result ForkAcquireResult × World (Unit {0})
first_answer = fork_acquire env (pos 10) action (world one_db)

fork_acquire_repeats_example :
    fork_acquire env (pos 20) action first_answer.1 ≡ (ok (result_of first_answer), first_answer.1)
unfolding fork_acquire codes cmp_text place_row has_row
fork_acquire_repeats_example =
    fork_acquire_repeats env action (pos 10) (pos 20) (meta_at first_offset) (world one_db)
      first_answer.1 (result_of first_answer) refl refl refl refl

abbrev edge : ForkEdge
edge = record { edge_id = codes "e"; fork_offset = first_offset }

abbrev source_db : Db
source_db = record one_db { fork_edges = edge ∷ [] }

abbrev after_delete : Result (Bool × Db) → Db
after_delete (ok (soft, after)) = after
after_delete (err e) = source_db

abbrev hidden_db : Db
hidden_db = after_delete (delete_tx env (pos 10) (meta_at first_offset) source_db)

delete_tx_keeps_source_example :
    (true ≡ true)
    × (hidden_db.messages ≡ one_db.messages)
    × (get_fork_edge (codes "e") hidden_db ≡ some first_offset)
    × (hidden_db.meta ≡ some (record (meta_at first_offset) { soft_deleted = true }))
unfolding delete_tx get_fork_edge codes cmp_text
delete_tx_keeps_source_example =
    delete_tx_keeps_source env (pos 10) (codes "e") first_offset (meta_at first_offset) source_db
      hidden_db true refl refl

abbrev release : ForkRelease
release = record { edge_id = codes "e"; source_generation = none }

-- The source is a fork itself, and was deleted before.
abbrev hidden : Meta
hidden = record (meta_at first_offset) {
  soft_deleted = true;
  forked_from = some (codes "/p");
  fork_edge_id = some (codes "own");
  fork_source_gen = some (codes "h");
}

is_fork_point-overlong_example :
    (is_fork_point overlong (meta_at (offset_text 0 8)) ≡ true)
    × ((payload : Bytes) (now : ℤ) (db : Db)
        → append_message overlong payload now db ≡ err "invalid digit found in string")
is_fork_point-overlong_example =
    is_fork_point-overlong (meta_at (offset_text 0 8)) 8 (omega arith) (omega arith) refl
