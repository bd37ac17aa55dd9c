-- ===== src/Actor/Fork/Releases.antt =====
-- References, in `fork_release` of src/actor/fork.rs and `handle_delete` of
-- src/actor/lifecycle.rs.
use rivet_durable_streams.Prelude.{
  ◌≡◌, Bool, true, ℤ, Text, List, [], ◌∷◌, none, some, ltb, length, arith, ok,
}
use rivet_durable_streams.Store.Tables.{Meta, ForkEdge, Db, find_row}
use rivet_durable_streams.Store.Meta.{set_soft_deleted}
use rivet_durable_streams.Store.Forks.{edge_key, get_fork_edge, fork_edge_count}
use rivet_durable_streams.Actor.Types.{Env}
use rivet_durable_streams.Actor.Lifecycle.{delete_tx}
use rivet_durable_streams.Actor.Fork.Duty.{IsQueued}

-- What a purge after a release leaves: nothing of the stream, and the release that it owes itself
-- where it is a fork.
abbrev pub IsPurged : Meta → Db → Db → Type 0
IsPurged meta db after =
    (after.meta ≡ none)
    × (after.messages ≡ [])
    × (after.producers ≡ [])
    × (after.fork_edges ≡ [])
    × ((parent_path edge_id : Text)
        → meta.forked_from ≡ some parent_path
        → meta.fork_edge_id ≡ some edge_id
        → IsQueued
            (record {
              edge_id = edge_id;
              parent_path = parent_path;
              source_generation = meta.fork_source_gen;
            })
            db after)

edge-counts :
    (edge_id recorded : Text) (db : Db)
    → get_fork_edge edge_id db ≡ some recorded
    → ltb 0 (fork_edge_count db) ≡ true
unfolding fork_edge_count get_fork_edge find_row
edge-counts edge_id recorded db e = counted db.fork_edges e
  where
    counted :
        (edges : List ForkEdge)
        → (elim (find_row edge_key edge_id edges) [
          | none ↦ none
          | some edge ↦ some edge.fork_offset
        ])
          ≡ some recorded
        → ltb 0 (length edges) ≡ true
    counted [] e = cc
    counted (x ∷ xs) e = ground arith

-- While a fork holds a reference, deleting the source only hides it: its messages, for the fork to
-- read, and the reference stay.
pub delete_tx_keeps_source :
    (env : Env) (now : ℤ) (edge_id recorded : Text) (meta : Meta) (db after : Db) (soft : Bool)
    → get_fork_edge edge_id db ≡ some recorded
    → delete_tx env now meta db ≡ ok (soft, after)
    → (soft ≡ true)
      × (after.messages ≡ db.messages)
      × (get_fork_edge edge_id after ≡ some recorded)
      × (after.meta
          ≡ (elim db.meta [ none ↦ none | some m ↦ some (record m { soft_deleted = true }) ]))
unfolding delete_tx set_soft_deleted get_fork_edge
delete_tx_keeps_source env now edge_id recorded meta db after soft e h =
    ground (arith, edge-counts edge_id recorded db e)
