-- ===== src/Tests/Migrate.antt =====
-- The theorems on the migration runner, each at one input.
use backend_architecture.Prelude.{
  ◌≡◌, refl, inl, inr, none, List, [], ◌∷◌, Text, codes, Result, ok, err, pure, arith, Result-cases,
  Post,
}
use backend_architecture.Services.Postgres.{IsPool, IsClient, Client}
use backend_architecture.Migrate.{
  Migration, Database, MigrateContext, create_table, select_applied, run_content, record_migration,
}
use backend_architecture.Migrate.Files.{
  match_filename, load_migration_files, load_files, sort_texts, checksum,
}
use backend_architecture.Tests.Databases.{pool_of, pool_of-IsPool}
use backend_architecture.Migrate.Runner.{
  get_applied_versions, migrate, apply_pending, apply_migration, returned, run_main, migrate,
  get_applied_versions,
}
use backend_architecture.Migrate.Runner.Main.{LeavesDatabase, Stopped, Migrated, run_main-Migrated}
use backend_architecture.Migrate.Runner.Again.{run_main-run_main}

-- The other tables are the texts that were run on them.
record Disk : Type 0 where
  committed : Database (List Text)
  working : Database (List Text)

abbrev settle : {A : Type 0} → Result (A × Database (List Text)) → Disk → Result A × Disk
settle (ok (a, t)) w = (ok a, record w { working = t })
settle (err e) w = (err e, w)

abbrev connection : Client Disk (Database (List Text))
connection = record {
  begin = λ w. (ok tt, record w { working = w.committed });
  execute = λ q w. settle (q w.working) w;
  commit = λ w. (ok tt, record w { committed = w.working });
  rollback = λ w. (ok tt, record w { working = w.committed });
}

connection-IsClient : IsClient connection (λ w. w.committed) (λ w. w.working)
connection-IsClient = record {
  begin_ok = λ w h. (refl, refl);
  begin_err = λ w e h. refl;
  execute_ok = λ q w a h. elim (Result-cases (q w.working)) [
    | inl ((b, t), e) ↦ ground arith
    | inr (x, e) ↦ ground arith
  ];
  execute_err = λ q w e h. elim (Result-cases (q w.working)) [
    | inl ((b, t), done) ↦ absurd (ground arith)
    | inr (x, failed) ↦ inl (ground arith)
  ];
  execute_keeps = λ q w. elim (Result-cases (q w.working)) [
    | inl ((b, t), e) ↦ ground arith
    | inr (x, e) ↦ ground arith
  ];
  commit_ok = λ w h. refl;
  commit_err = λ w e h. cc;
  rollback_keeps = λ w. refl;
}

abbrev script : MigrateContext Disk (List Text)
script = record {
  read_directory = pure (codes "004_b.sql" ∷ codes "notes.txt" ∷ codes "003_a_b.sql" ∷ []);
  read_file = λ file. pure file;
  sha256_hex = λ content. content;
  sql = λ content d. ok (tt, content ∷ d);
  connect = pure tt;
  session = pool_of (λ w. w.committed) (λ t w. record w { committed = t });
  client = connection;
  end_client = pure tt;
}

session-IsPool : IsPool script.session (λ w. w.committed)
session-IsPool = pool_of-IsPool (λ w. w.committed) (λ t w. record w { committed = t }) (λ t w. refl)

script-LeavesDatabase : LeavesDatabase script (λ w. w.committed)
unfolding load_migration_files load_files sort_texts match_filename
script-LeavesDatabase = record { loading = λ w. refl; connecting = λ w. refl; ending = λ w. refl }

abbrev blank : Disk
blank = record {
  committed = record { schema_migrations = none; schema = [] };
  working = record { schema_migrations = none; schema = [] };
}

abbrev third : Migration
third = record {
  version = codes "003";
  description = codes "a b";
  filename = codes "003_a_b.sql";
  content = codes "003_a_b.sql";
  checksum = codes "003_a_b.sql";
}

abbrev fourth : Migration
fourth = record {
  version = codes "004";
  description = codes "b";
  filename = codes "004_b.sql";
  content = codes "004_b.sql";
  checksum = codes "004_b.sql";
}

-- The two files with names of the right form are loaded, in the order of their names.
files_in_order : (w : Disk) → (load_migration_files script w).0 ≡ ok (third ∷ fourth ∷ [])
unfolding load_migration_files load_files sort_texts match_filename checksum
files_in_order w = refl

both_applied :
    (run_main script blank).1.committed.schema ≡ codes "004_b.sql" ∷ codes "003_a_b.sql" ∷ []
unfolding run_main load_migration_files load_files sort_texts match_filename checksum migrate
    get_applied_versions create_table select_applied apply_pending apply_migration run_content
    record_migration
both_applied = refl

run_returns : (run_main script blank).0 ≡ ok returned
unfolding run_main load_migration_files load_files sort_texts match_filename checksum migrate
    get_applied_versions create_table select_applied apply_pending apply_migration run_content
    record_migration
run_returns = refl

run_main-Migrated_example :
    Post
      (Stopped script (λ w. w.committed) (third ∷ fourth ∷ []) blank.committed)
      (Migrated script (λ w. w.committed) (third ∷ fourth ∷ []) blank.committed)
      (run_main script blank)
run_main-Migrated_example =
    run_main-Migrated script (λ w. w.committed) (λ w. w.working) session-IsPool connection-IsClient
      script-LeavesDatabase third (fourth ∷ []) blank (files_in_order blank)

run_main-run_main_example :
    (run_main script (run_main script blank).1).1.committed ≡ (run_main script blank).1.committed
run_main-run_main_example =
    run_main-run_main script (λ w. w.committed) (λ w. w.working) session-IsPool connection-IsClient
      script-LeavesDatabase third (fourth ∷ []) blank (run_main script blank).1
      ((refl, tt), (tt, tt)) (files_in_order blank) run_returns refl
      (files_in_order (run_main script blank).1)
