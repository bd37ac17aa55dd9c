-- ===== src/Tests/Data.antt =====
-- A platform whose encodings are identities, and an environment without other actors.
use rivet_durable_streams.Prelude.{
  ℕ, true, false, ◌++◌, pos, Text, Bytes, [], ◌∷◌, none, some, codes, ok,
}
use rivet_durable_streams.Protocol.Offset.{zero_offset}
use rivet_durable_streams.Store.Tables.{Meta, Message, Db, empty_db}
use rivet_durable_streams.Store.Range.{empty_batch}
use rivet_durable_streams.Store.Platform.{Platform, Control, ended, going_on}
use rivet_durable_streams.Actor.Types.{Env, World, not_acquired}

abbrev control_text : Control → Text
control_text (ended offset) = codes "end " ++ offset
control_text (going_on offset cursor true) = codes "tail " ++ offset
control_text (going_on offset cursor false) = codes "more " ++ offset

abbrev pub platform : Platform
platform = record {
  url_encode = λ bytes. bytes;
  url_decode = λ text. some text;
  standard_encode = λ bytes. bytes;
  parse_rfc3339 = λ text. none;
  Value = Bytes;
  from_slice = λ bytes. some bytes;
  as_array = λ value. none;
  to_writer = λ value. value;
  closed_by_to_text = λ closed_by. closed_by.producer_id;
  closed_by_from_text = λ text. none;
  params_to_text = λ params. params.0;
  params_from_text = λ text. some (text, none);
  control_to_text = control_text;
  uuid = λ n. n ∷ [];
}

-- `during` is what happens while a read waits.
abbrev pub env_during : (ℕ → Db → Db) → Env
env_during during = record {
  platform = platform;
  Rest = Unit {0};
  Handle = Unit {0};
  source_handle = λ scope path. ok tt;
  fork_acquire = λ handle action rest. (ok (not_acquired (codes "not_found")), rest);
  fork_release = λ handle action rest. (ok tt, rest);
  read_range = λ handle action rest. (ok empty_batch, rest);
  during = during;
}

abbrev pub env : Env
env = env_during (λ n db. db)

abbrev pub world : Db → World (Unit {0})
world db = record {
  path = codes "/s";
  tenant_scope = codes "t";
  db = db;
  changes = 0;
  alarms = [];
  drawn = 0;
  waits = 0;
  rest = tt;
}

abbrev pub meta_at : Text → Meta
meta_at offset = record {
  generation = codes "g";
  content_type = some (codes "text/plain");
  ttl_seconds = none;
  expires_at = none;
  closed = false;
  closed_by = none;
  current_offset = offset;
  last_seq = none;
  created_at = pos 1;
  last_accessed_at = pos 1;
  forked_from = none;
  fork_offset = none;
  fork_sub_offset = none;
  fork_edge_id = none;
  fork_source_gen = none;
  soft_deleted = false;
}

-- A new stream, and one with a message of three bytes.
abbrev pub new_db : Db
new_db = record empty_db { meta = some (meta_at zero_offset) }

abbrev pub first_offset : Text
first_offset = codes "0000000000000000_0000000000000008"

abbrev pub first_message : Message
first_message = record { offset = first_offset; content = 1 ∷ 2 ∷ 3 ∷ []; ts = pos 2 }

abbrev pub one_db : Db
one_db = record empty_db { meta = some (meta_at first_offset); messages = first_message ∷ [] }
