-- ===== src/Tests/Stitched.antt =====
-- A fork of a fork, for the theorem on reads of forks.
use rivet_durable_streams.Prelude.{
  refl, ◌++◌, pos, Text, List, [], ◌∷◌, none, some, codes, cmp_text,
}
use rivet_durable_streams.Store.Tables.{Meta, Message, Db, empty_db}
use rivet_durable_streams.Store.Range.{normalized}
use rivet_durable_streams.Store.Range.Scan.{wanted}
use rivet_durable_streams.Actor.Types.{Env, World}
use rivet_durable_streams.Actor.Read.{inherits, read_stitched, handle_read_range}
use rivet_durable_streams.Actor.Read.Stitched.Source.{Reads}
use rivet_durable_streams.Actor.Read.Stitched.Joined.{alone, joined, read_stitched-Reads}
use rivet_durable_streams.Tests.Data.{env, world, meta_at, one_db, first_offset}

abbrev second_offset : Text
second_offset = codes "0000000000000000_0000000000000014"

abbrev third_offset : Text
third_offset = codes "0000000000000000_0000000000000020"

-- A fork at an offset of `/p`, with one message of its own.
abbrev forked_meta : Text → Text → Meta
forked_meta fork_offset offset = record (meta_at offset) {
  forked_from = some (codes "/p");
  fork_offset = some fork_offset;
}

abbrev forked_db : Text → Text → Db
forked_db fork_offset offset = record empty_db {
  meta = some (forked_meta fork_offset offset);
  messages = record { offset = offset; content = 9 ∷ []; ts = pos 3 } ∷ [];
}

abbrev first_fork : World (Unit {0})
first_fork = world (forked_db first_offset second_offset)

abbrev second_fork : World (Unit {0})
second_fork = world (forked_db second_offset third_offset)

-- An actor whose source is this one.
abbrev above : (source : Env) → World source.Rest → Env
above source there = record env {
  read_range = λ handle action rest. ((handle_read_range source 1 action there).0, rest);
}

abbrev first_env : Env
first_env = above env (world one_db)

abbrev all_messages : List Message
all_messages =
    wanted none (some first_offset) one_db
    ++ wanted none (some second_offset) first_fork.db
    ++ wanted none none second_fork.db

read_stitched-Reads_example :
    Reads all_messages
      (read_stitched
        (above first_env first_fork)
        1
        (forked_meta second_offset third_offset)
        none
        none
        10
        100
        second_fork).0
unfolding normalized inherits codes cmp_text
read_stitched-Reads_example =
    read_stitched-Reads (above first_env first_fork) 0 second_fork
      (forked_meta second_offset third_offset) none none 10 100 all_messages
      (joined first_env first_fork (forked_meta first_offset second_offset)
        (forked_meta second_offset third_offset) (codes "/p") second_offset tt tt _ 0 refl refl refl
        refl refl refl (tt, tt) refl
        (joined env (world one_db) (meta_at first_offset) (forked_meta first_offset second_offset)
          (codes "/p") first_offset tt tt _ 0 refl refl refl refl refl refl (tt, tt) refl
          (alone refl (tt, tt) refl)))
