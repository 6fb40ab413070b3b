-- ===== src/Migrate.antt =====
-- scripts/migrate.mjs: the migration files, and the table that records which of them are applied.
pub mod Files
pub mod Runner
use backend_architecture.Prelude.{
  ℕ, zero, suc, ◌+◌, ◌-◌, ◌*◌, ◌/◌, ◌%◌, ◌≤◌, ◌<◌, ◌≡◌, ◌≢◌, ◌↔◌, refl, sym, ap, ◌∙◌, ◌⊎◌, inl, inr,
  Bool, true, false, not, ◌&&◌, ◌||◌, Option, none, some, List, [], ◌∷◌, ◌++◌, map, Text, codes,
  text_eq, text_eq_iff, text_eq_refl, to_lower, trim, starts_with, before, leb, ltb, ◌==◌,
  if◌then◌else◌, length, take, drop, get_elem?, all, All, join, Exception, Result, ok, err, Action,
  pure, throw, ◌>>=◌, ◌>>◌, try_catch, modify, Pending, await, arith, Bool-cases, Option-cases,
  Result-cases, after_bind, after_try, Post, bind-eq-ok, bind-Post, try-Post, Post-intro, min, max,
}
use backend_architecture.Services.Postgres.{Statement, Pool, Client}

pub record Migration : Type 0 where
  pub version : Text
  pub description : Text
  pub filename : Text
  pub content : Text
  pub checksum : Text

-- A row of `schema_migrations`; `applied_at` is never read.
pub record AppliedMigration : Type 0 where
  pub version : Text
  pub description : Text
  pub checksum : Text

-- The table, `none` before it is created, and all other tables, which the migrations change.
pub record Database (D : Type 0) : Type 0 where
  pub schema_migrations : Option (List AppliedMigration)
  pub schema : D

-- `applied.get(version)`
abbrev pub find_applied : Text → List AppliedMigration → Option Text
find_applied version [] = none
find_applied version (row ∷ rows) =
    if text_eq row.version version then some row.checksum else find_applied version rows

abbrev pub rows_of : Option (List AppliedMigration) → List AppliedMigration
rows_of none = []
rows_of (some rows) = rows

-- `CREATE TABLE IF NOT EXISTS schema_migrations …`
unfoldable pub create_table : {D : Type 0} → Statement (Database D) (Unit {0})
create_table t = ok (tt, record t { schema_migrations = some (rows_of t.schema_migrations) })

abbrev undefined_table : Exception
undefined_table = record {
  code = some (codes "42P01");
  message = codes "relation \"schema_migrations\" does not exist";
}

abbrev selected :
    {D : Type 0} → Option (List AppliedMigration) → Statement (Database D) (List AppliedMigration)
selected none t = err undefined_table
selected (some rows) t = ok (rows, t)

-- `SELECT version, checksum FROM schema_migrations ORDER BY version`, of which a `Map` is made, so
-- that the order of the rows plays no part.
unfoldable pub select_applied : {D : Type 0} → Statement (Database D) (List AppliedMigration)
select_applied t = selected t.schema_migrations t

-- The row of a version is replaced in its checksum alone, and a new version gets a row.
abbrev pub upsert : Migration → List AppliedMigration → List AppliedMigration
upsert m [] =
    record { version = m.version; description = m.description; checksum = m.checksum } ∷ []
upsert m (row ∷ rows) =
    if text_eq row.version m.version
    then record row { checksum = m.checksum } ∷ rows
    else row ∷ upsert m rows

abbrev recorded :
    {D : Type 0} → Migration → Option (List AppliedMigration) → Statement (Database D) (Unit {0})
recorded m none t = err undefined_table
recorded m (some rows) t = ok (tt, record t { schema_migrations = some (upsert m rows) })

-- `INSERT INTO schema_migrations … ON CONFLICT (version) DO UPDATE SET checksum = $3, …`
unfoldable pub record_migration : {D : Type 0} → Migration → Statement (Database D) (Unit {0})
record_migration m t = recorded m t.schema_migrations t

abbrev on_schema : {D : Type 0} → Result (Unit {0} × D) → Statement (Database D) (Unit {0})
on_schema (ok (a, d)) t = ok (a, record t { schema = d })
on_schema (err e) t = err e

-- The SQL text of a migration, run on the other tables.
unfoldable pub run_content :
    {D : Type 0} → (Text → Statement D (Unit {0})) → Text → Statement (Database D) (Unit {0})
run_content sql content t = on_schema (sql content t.schema) t

-- What the script is given: the directory and its files, SHA-256 in hexadecimal, what the SQL text of
-- a migration does to the tables it is about, and the connection, on which a statement is committed
-- by itself (`session`) or stands in a transaction (`client`).
pub record MigrateContext (W D : Type 0) : Type 1 where
  pub read_directory : Action W (List Text)
  pub read_file : Text → Action W Text
  pub sha256_hex : Text → Text
  pub sql : Text → Statement D (Unit {0})
  pub connect : Action W (Unit {0})
  pub session : Pool W (Database D)
  pub client : Client W (Database D)
  pub end_client : Action W (Unit {0})
