-- ===== src/Store/Schema/Once.antt =====
-- src/store.rs: how often a migration is applied.
use rivet_durable_streams.Prelude.{
  ◌≡◌, refl, sym, ap, ◌∙◌, false, [], ◌∷◌, select, ℤ, pos, negsuc, ltb_ℤ, ok, ok_injective, bind_ok,
  inl, inr, Bool-cases, arith,
}
use rivet_durable_streams.Store.Schema.{
  Migration, SqliteDb, schema_version_table, migrations, migration_1, migration_batch,
  supported_schema_version, validate_schema_version, read_schema_version, migrate, ensure_schema,
  last_version,
}

same_version : (n : ℤ) → ltb_ℤ (pos 1) n ≡ false → ltb_ℤ n (pos 1) ≡ false → n ≡ pos 1
same_version (pos n) above below = ground arith
same_version (negsuc n) above below = ground arith

validated :
    (current : ℤ) (u : Unit {0})
    → validate_schema_version current ≡ ok u
    → ltb_ℤ (pos 1) current ≡ false
unfolding validate_schema_version supported_schema_version last_version
validated current u h = ground arith

ensured_again :
    (db : SqliteDb) (ready : db.Tables)
    → db.exec schema_version_table ready ≡ ok ready
    → read_schema_version db ready ≡ ok (pos 1)
    → ensure_schema db ready ≡ ok ready
unfolding ensure_schema validate_schema_version supported_schema_version last_version migrate select
ensured_again db ready created read = rw (created, read) refl

module _ (db : SqliteDb)
    (batch : (migration : Migration) (tables migrated : db.Tables)
      → db.execute_batch (migration_batch migration) tables ≡ ok migrated
      → read_schema_version db migrated ≡ ok migration.version) where
  migrated_once :
      (migration : Migration) (tables ready : db.Tables)
      → migrate db (migration ∷ []) tables ≡ ok ready
      → read_schema_version db ready ≡ ok migration.version
  unfolding migrate
  migrated_once migration tables ready h =
      let (migrated, (e, last)) =
        bind_ok (db.execute_batch (migration_batch migration) tables) (λ t. ok t) ready h in
      batch migration tables ready (e ∙ last)

  migrate_supported :
      (current : ℤ) (u : Unit {0}) (versioned ready : db.Tables)
      → read_schema_version db versioned ≡ ok current
      → validate_schema_version current ≡ ok u
      → migrate db (select (λ migration. ltb_ℤ current migration.version) migrations) versioned
        ≡ ok ready
      → read_schema_version db ready ≡ ok (pos 1)
  unfolding select migrate
  migrate_supported current u versioned ready read valid h =
      elim (Bool-cases (ltb_ℤ current (pos 1))) [
        | inl older ↦
            migrated_once record { version = pos 1; statements = migration_1 } versioned ready
              (rw older at h)
        | inr reached ↦
            rw (sym (ok_injective versioned ready (rw reached at h)))
              (read ∙ ap ok (same_version current (validated current u valid) reached))
      ]

  -- Where a committed batch leaves its version to be read, and the creation of the version's table
  -- changes nothing where a version was read: once the schema was brought up to date, its version is
  -- the supported one, and doing so again, as every later start does, applies no migration and
  -- leaves the tables as they are.
  pub ensure_schema_once :
      ((tables : db.Tables) (migration : Migration)
        → read_schema_version db tables ≡ ok migration.version
        → db.exec schema_version_table tables ≡ ok tables)
      → (tables ready : db.Tables) → ensure_schema db tables ≡ ok ready
      → (read_schema_version db ready ≡ ok supported_schema_version)
        × (ensure_schema db ready ≡ ok ready)
  unfolding ensure_schema supported_schema_version last_version
  ensure_schema_once created tables ready h =
      let (versioned, (_, rest)) = bind_ok (db.exec schema_version_table tables) _ ready h in
      let (current, (read, rest')) = bind_ok (read_schema_version db versioned) _ ready rest in
      let (u, (valid, run)) = bind_ok (validate_schema_version current) _ ready rest' in
      let supported = migrate_supported current u versioned ready read valid run in
      (
        supported,
        ensured_again db ready (created ready record { version = pos 1; statements = [] } supported)
            supported,
      )
