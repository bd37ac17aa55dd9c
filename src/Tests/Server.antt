-- ===== src/Tests/Server.antt =====
-- Concrete inputs for the theorems on the schema, the rows and src/serverless_http.rs.
use rivet_durable_streams.Prelude.{
  ◌≡◌, refl, sym, true, String, List, [], ◌∷◌, ◌++◌, none, some, ℤ, pos, map, ok, ok_injective,
  codes,
}
use rivet_durable_streams.Protocol.Http.{get_header}
use rivet_durable_streams.Store.Meta.{new_meta}
use rivet_durable_streams.Store.Rows.{
  ColumnValue, integer_column, null_param, integer_param, text_param, blob_param, parse_meta,
}
use rivet_durable_streams.Store.Rows.Created.{created_row, parse_meta-created_row}
use rivet_durable_streams.Store.Schema.{
  Migration, SqliteBatchStatement, SqliteDb, migration_batch, read_schema_version,
  supported_schema_version, ensure_schema, version_insert,
}
use rivet_durable_streams.Store.Schema.Once.{ensure_schema_once}
use rivet_durable_streams.Server.Serverless.{copy_headers}
use rivet_durable_streams.Server.Serverless.Copied.{
  joined_with_commas, readable_values, get_header-copy_headers,
}

get_header-copy_headers_example :
    get_header "a" (copy_headers (("a", codes "x") ∷ ("b", []) ∷ ("a", codes "y") ∷ []))
    ≡ joined_with_commas
        (readable_values "a" (("a", codes "x") ∷ ("b", []) ∷ ("a", codes "y") ∷ []))
get_header-copy_headers_example =
    get_header-copy_headers "a" (("a", codes "x") ∷ ("b", []) ∷ ("a", codes "y") ∷ [])

parse_meta-created_row_example :
    parse_meta (
      created_row
        (codes "g")
        (some (codes "text/plain"))
        none
        none
        true
        (pos 5)
        none
        none
        none
        none
        none)
    ≡ ok (
        new_meta
          (codes "g")
          (some (codes "text/plain"))
          none
          none
          true
          (pos 5)
          none
          none
          none
          none
          none)
parse_meta-created_row_example =
    parse_meta-created_row (codes "g") (some (codes "text/plain")) none none true (pos 5) none none
      none none none

-- A database of which only the version is kept.
unfoldable after_statement :
    List (List ColumnValue) → SqliteBatchStatement → List (List ColumnValue)
after_statement rows statement = elim statement.params [
  | none ↦ rows
  | some [] ↦ rows
  | some (null_param ∷ params) ↦ rows
  | some (text_param value ∷ params) ↦ rows
  | some (blob_param value ∷ params) ↦ rows
  | some (integer_param version ∷ params) ↦ (integer_column version ∷ []) ∷ []
]

unfoldable after_statements :
    List SqliteBatchStatement → List (List ColumnValue) → List (List ColumnValue)
unfolding after_statement
after_statements [] rows = rows
after_statements (statement ∷ statements) rows =
    after_statements statements (after_statement rows statement)

abbrev version_db : SqliteDb
version_db = record {
  Tables = List (List ColumnValue);
  exec = λ sql rows. ok rows;
  query = λ sql rows. ok rows;
  execute_batch = λ statements rows. ok (after_statements statements rows);
}

after_statements_last :
    (sqls : List String) (version : ℤ) (rows : List (List ColumnValue))
    → after_statements
        (map (λ sql. record { sql = sql; params = none }) sqls
          ++ record { sql = version_insert; params = some (integer_param version ∷ []) } ∷ [])
        rows
      ≡ (integer_column version ∷ []) ∷ []
unfolding after_statements
after_statements_last [] version rows = refl
after_statements_last (sql ∷ sqls) version rows = after_statements_last sqls version rows

version_db_batch :
    (migration : Migration) (tables migrated : List (List ColumnValue))
    → version_db.execute_batch (migration_batch migration) tables ≡ ok migrated
    → read_schema_version version_db migrated ≡ ok migration.version
unfolding migration_batch read_schema_version
version_db_batch migration tables migrated e =
    let left = after_statements_last migration.statements migration.version tables in
    rw (sym (ok_injective _ migrated e), left) refl

abbrev version_rows : List (List ColumnValue)
version_rows = (integer_column (pos 1) ∷ []) ∷ []

ensure_schema_once_example :
    (read_schema_version version_db version_rows ≡ ok supported_schema_version)
    × (ensure_schema version_db version_rows ≡ ok version_rows)
unfolding ensure_schema after_statements
ensure_schema_once_example =
    ensure_schema_once version_db version_db_batch (λ tables migration read. refl) [] version_rows
      refl
