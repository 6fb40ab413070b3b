-- ===== src/Migrate/Runner.antt =====
-- scripts/migrate.mjs: `getAppliedVersions` and `main`.
pub mod Prefix
pub mod Main
pub mod Records
pub mod Again
use backend_architecture.Prelude.{
  ℕ, zero, suc, ◌+◌, ◌-◌, ◌*◌, ◌/◌, ◌%◌, ◌≤◌, ◌<◌, ◌≡◌, ◌≢◌, ◌↔◌, refl, sym, ap, ◌∙◌, ◌⊎◌, inl, inr,
  Bool, true, false, not, ◌&&◌, ◌||◌, Option, none, some, List, [], ◌∷◌, ◌++◌, map, Text, codes,
  text_eq, text_eq_iff, text_eq_refl, to_lower, trim, starts_with, before, leb, ltb, ◌==◌,
  if◌then◌else◌, length, take, drop, get_elem?, all, All, join, Exception, Result, ok, err, Action,
  pure, throw, ◌>>=◌, ◌>>◌, try_catch, modify, Pending, await, arith, Bool-cases, Option-cases,
  Result-cases, after_bind, after_try, Post, bind-eq-ok, bind-Post, try-Post, Post-intro, min, max,
}
use backend_architecture.Services.Postgres.{Statement, Pool, Client}
use backend_architecture.Migrate.{
  Migration, AppliedMigration, Database, MigrateContext, find_applied, create_table, select_applied,
  record_migration, run_content,
}
use backend_architecture.Migrate.Files.{load_migration_files}

-- How the body of `main` ends: it returns, or it calls `process.exit(1)`, after which no more code
-- runs, not even a `finally`.
pub data Ending : Type 0 where
  returned exited : Ending

-- A recorded version whose file has another checksum by now.
abbrev pub is_modified : List AppliedMigration → Migration → Bool
is_modified applied m = elim (find_applied m.version applied) [
  | none ↦ false
  | some checksum ↦ not (text_eq checksum m.checksum)
]

abbrev pub is_pending : List AppliedMigration → Migration → Bool
is_pending applied m = elim (find_applied m.version applied) [ none ↦ true | some _ ↦ false ]

abbrev pub any_migration : (Migration → Bool) → List Migration → Bool
any_migration test [] = false
any_migration test (m ∷ ms) = test m || any_migration test ms

abbrev pub keep_migrations : (Migration → Bool) → List Migration → List Migration
keep_migrations test [] = []
keep_migrations test (m ∷ ms) =
    let rest = keep_migrations test ms in if test m then m ∷ rest else rest

module _ {W D : Type 0} (ctx : MigrateContext W D) where
  unfoldable pub get_applied_versions : Action W (List AppliedMigration)
  get_applied_versions = ctx.session.query create_table >>= λ _. ctx.session.query select_applied

  -- The statements of one migration, up to its `COMMIT`.
  abbrev pub commit_migration : Migration → Action W Ending
  commit_migration m = ctx.client.execute (run_content ctx.sql m.content) >>= λ _.
      ctx.client.execute (record_migration m) >>= λ _. ctx.client.commit >>= λ _. pure returned

  -- One turn of the loop over the pending migrations.
  unfoldable pub apply_migration : Migration → Action W Ending
  apply_migration m = ctx.client.begin >>= λ _.
      try_catch (commit_migration m) (λ e. ctx.client.rollback >>= λ _. pure exited)

  unfoldable pub apply_pending : List Migration → Action W Ending
  apply_pending [] = pure returned
  apply_pending (m ∷ ms) = apply_migration m >>= λ ending. elim ending [
    | returned ↦ apply_pending ms
    | exited ↦ pure exited
  ]

  -- The `try` block.
  unfoldable pub migrate : List Migration → Action W Ending
  migrate migrations = get_applied_versions >>= λ applied.
      if any_migration (is_modified applied) migrations
      then pure exited
      else apply_pending (keep_migrations (is_pending applied) migrations)

  -- The `finally` block, which an exit passes over.
  abbrev finally_end : Result Ending → Action W Ending
  finally_end (ok exited) = pure exited
  finally_end (ok returned) = ctx.end_client >>= λ _. pure returned
  finally_end (err e) = ctx.end_client >>= λ _. throw e

  abbrev with_end : Action W Ending → Action W Ending
  with_end body w = let (r, w') = body w in finally_end r w'

  -- `main` once the files are loaded.
  abbrev pub run_files : List Migration → Action W Ending
  run_files [] = pure returned
  run_files (m ∷ ms) = ctx.connect >>= λ _. with_end (migrate (m ∷ ms))

  unfoldable pub run_main : Action W Ending
  run_main = load_migration_files ctx >>= run_files

  -- The exit code of the script, whose `catch` exits with 1.
  unfoldable pub exit_code : W → ℕ × W
  exit_code w =
      let (r, w') = run_main w in
      (elim r [ ok ending ↦ elim ending [ returned ↦ 0 | exited ↦ 1 ] | err _ ↦ 1 ], w')
