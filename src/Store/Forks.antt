-- ===== src/Store/Forks.antt =====
-- src/store.rs: the fork edges, the fork intents and the releases that are still to be sent.
use rivet_durable_streams.Prelude.{
  ℕ, Text, List, [], ◌∷◌, Option, none, some, text_eq, if◌then◌else◌, take, length, Result, ok,
  ok_or, ◌>>=◌,
}
use rivet_durable_streams.Store.Tables.{
  ForkEdge, ForkIntent, GcRelease, Db, find_row, delete_row, insert_or_ignore,
}

abbrev pub edge_key : ForkEdge → Text
edge_key e = e.edge_id

abbrev pub intent_key : ForkIntent → Text
intent_key i = i.edge_id

abbrev pub release_key : GcRelease → Text
release_key r = r.edge_id

unfoldable pub fork_edge_count : Db → ℕ
fork_edge_count db = length db.fork_edges

unfoldable pub get_fork_edge : Text → Db → Option Text
unfolding find_row
get_fork_edge edge_id db = elim (find_row edge_key edge_id db.fork_edges) [
  | none ↦ none
  | some edge ↦ some edge.fork_offset
]

-- The offset that is recorded for the edge, which is an older one if the edge was there.
unfoldable pub insert_fork_edge : Text → Text → Db → Result (Text × Db)
unfolding insert_or_ignore get_fork_edge
insert_fork_edge edge_id fork_offset db = do
  let edges =
      insert_or_ignore edge_key (record { edge_id = edge_id; fork_offset = fork_offset })
        db.fork_edges
  let after = record db { fork_edges = edges }
  recorded ← ok_or (get_fork_edge edge_id after) "fork edge was not persisted"
  ok (recorded, after)

unfoldable pub delete_fork_edge : Text → Db → Db
unfolding delete_row
delete_fork_edge edge_id db = record db { fork_edges = delete_row edge_key edge_id db.fork_edges }

-- SELECT edge_id FROM fork_intents WHERE params_key = ?
unfoldable pub find_params : Text → List ForkIntent → Option Text
find_params params_key [] = none
find_params params_key (i ∷ is) =
    if text_eq i.params_key params_key then some i.edge_id else find_params params_key is

unfoldable pub get_fork_intent : Text → Db → Option Text
unfolding find_params
get_fork_intent params_key db = find_params params_key db.fork_intents

unfoldable pub put_fork_intent : Text → Text → Text → Db → Db
unfolding insert_or_ignore
put_fork_intent edge_id parent_path params_key db = record db {
  fork_intents =
      insert_or_ignore intent_key
        (record { edge_id = edge_id; parent_path = parent_path; params_key = params_key })
        db.fork_intents;
}

unfoldable pub delete_fork_intent : Text → Db → Db
unfolding delete_row
delete_fork_intent edge_id db = record db {
  fork_intents = delete_row intent_key edge_id db.fork_intents;
}

-- ORDER BY edge_id LIMIT 64: the table is in the order of its key.
unfoldable pub pending_fork_intents : Db → List ForkIntent
pending_fork_intents db = take 64 db.fork_intents

unfoldable pub enqueue_gc_release : Text → Text → Option Text → Db → Db
unfolding insert_or_ignore
enqueue_gc_release edge_id parent_path source_generation db = record db {
  gc_releases =
      insert_or_ignore release_key
        (record {
          edge_id = edge_id;
          parent_path = parent_path;
          source_generation = source_generation;
        })
        db.gc_releases;
}

unfoldable pub dequeue_gc_release : Text → Db → Db
unfolding delete_row
dequeue_gc_release edge_id db = record db {
  gc_releases = delete_row release_key edge_id db.gc_releases;
}

unfoldable pub pending_gc_releases : Db → List GcRelease
pending_gc_releases db = take 64 db.gc_releases
