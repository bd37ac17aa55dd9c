-- ===== src/Store/Schema.antt =====
-- src/store.rs: the schema's version and its migrations.
pub mod Once
use rivet_durable_streams.Prelude.{
  Bool, String, List, [], ◌∷◌, ◌++◌, Option, none, some, map, select, first, last, ℤ, pos, ltb_ℤ,
  if◌then◌else◌, Result, ok, err, ◌>>=◌,
}
use rivet_durable_streams.Store.Rows.{ColumnValue, integer_column, BindParam, integer_param}

pub record Migration : Type 0 where
  pub version : ℤ
  pub statements : List String

pub record SqliteBatchStatement : Type 0 where
  pub sql : String
  pub params : Option (List BindParam)

-- The database of rivetkit, with its tables as the state.
pub record SqliteDb : Type 1 where
  pub Tables : Type 0
  pub exec : String → Tables → Result Tables
  pub query : String → Tables → Result (List (List ColumnValue))
  pub execute_batch : List SqliteBatchStatement → Tables → Result Tables

abbrev pub schema_version_table : String
schema_version_table =
    "\nCREATE TABLE IF NOT EXISTS durable_streams_schema_version (\n  singleton INTEGER PRIMARY KEY CHECK (singleton = 1),\n  schema_version INTEGER NOT NULL CHECK (schema_version >= 0)\n) STRICT\n"

abbrev pub migration_1 : List String
migration_1 =
    "\nCREATE TABLE IF NOT EXISTS meta (\n  id INTEGER PRIMARY KEY CHECK (id = 1),\n  gen TEXT NOT NULL,\n  content_type TEXT,\n  ttl_seconds INTEGER,\n  expires_at TEXT,\n  closed INTEGER NOT NULL DEFAULT 0,\n  closed_by TEXT,\n  current_offset TEXT NOT NULL,\n  last_seq TEXT,\n  created_at INTEGER NOT NULL,\n  last_accessed_at INTEGER NOT NULL,\n  forked_from TEXT,\n  fork_offset TEXT,\n  fork_sub_offset INTEGER,\n  fork_edge_id TEXT,\n  fork_source_gen TEXT,\n  soft_deleted INTEGER NOT NULL DEFAULT 0\n)\n"
    ∷ "\nCREATE TABLE IF NOT EXISTS messages (\n  msg_offset TEXT PRIMARY KEY,\n  data BLOB NOT NULL,\n  ts INTEGER NOT NULL\n)\n"
    ∷ "\nCREATE TABLE IF NOT EXISTS producers (\n  producer_id TEXT PRIMARY KEY,\n  epoch INTEGER NOT NULL,\n  last_seq INTEGER NOT NULL,\n  last_updated INTEGER NOT NULL\n)\n"
    ∷ "CREATE INDEX IF NOT EXISTS producers_last_updated_idx ON producers(last_updated, producer_id)"
    ∷ "\nCREATE TABLE IF NOT EXISTS fork_edges (\n  edge_id TEXT PRIMARY KEY,\n  fork_offset TEXT NOT NULL\n)\n"
    ∷ "\nCREATE TABLE IF NOT EXISTS fork_intents (\n  edge_id TEXT PRIMARY KEY,\n  parent_path TEXT NOT NULL,\n  params_key TEXT NOT NULL\n)\n"
    ∷ "\nCREATE TABLE IF NOT EXISTS gc_releases (\n  edge_id TEXT PRIMARY KEY,\n  parent_path TEXT NOT NULL,\n  source_gen TEXT\n)\n"
    ∷ []

abbrev pub migrations : List Migration
migrations = record { version = pos 1; statements = migration_1 } ∷ []

-- `MIGRATIONS.last().map_or(0, |migration| migration.version)`
unfoldable pub last_version : Option Migration → ℤ
last_version none = pos 0
last_version (some migration) = migration.version

unfoldable pub supported_schema_version : ℤ
unfolding last_version
supported_schema_version = last_version (last migrations)

unfoldable pub validate_schema_version : ℤ → Result (Unit {0})
unfolding supported_schema_version
validate_schema_version current =
    if ltb_ℤ supported_schema_version current
    then err "Durable Streams schema version is newer than supported version"
    else ok tt

-- The first column of the first row.
unfoldable pub version_of : List (List ColumnValue) → Result ℤ
version_of [] = ok (pos 0)
version_of ([] ∷ rows) = ok (pos 0)
version_of ((integer_column version ∷ columns) ∷ rows) = ok version
version_of ((value ∷ columns) ∷ rows) = err "Durable Streams schema version was not an integer"

abbrev pub version_select : String
version_select = "SELECT schema_version FROM durable_streams_schema_version WHERE singleton = 1"

abbrev pub version_insert : String
version_insert =
    "INSERT INTO durable_streams_schema_version (singleton, schema_version) VALUES (1, ?) ON CONFLICT(singleton) DO UPDATE SET schema_version = excluded.schema_version"

unfoldable pub migration_batch : Migration → List SqliteBatchStatement
migration_batch migration =
    map (λ sql. record { sql = sql; params = none }) migration.statements
    ++ record { sql = version_insert; params = some (integer_param migration.version ∷ []) } ∷ []

module _ (db : SqliteDb) where
  unfoldable pub read_schema_version : db.Tables → Result ℤ
  unfolding version_of
  read_schema_version tables = do rows ← db.query version_select tables; version_of rows

  unfoldable pub migrate : List Migration → db.Tables → Result db.Tables
  unfolding migration_batch
  migrate [] tables = ok tables
  migrate (migration ∷ later) tables = do
    migrated ← db.execute_batch (migration_batch migration) tables
    migrate later migrated

  unfoldable pub ensure_schema : db.Tables → Result db.Tables
  unfolding read_schema_version validate_schema_version migrate select
  ensure_schema tables = do
    versioned ← db.exec schema_version_table tables
    current ← read_schema_version versioned
    _ ← validate_schema_version current
    migrate (select (λ migration. ltb_ℤ current migration.version) migrations) versioned
