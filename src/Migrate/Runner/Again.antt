-- ===== src/Migrate/Runner/Again.antt =====
-- scripts/migrate.mjs: a run after a run that has applied everything.
use mathlib.Core.Path.{subst}
use mathlib.Core.List.{Memᴰ}
use mathlib.Core.List.Memᴰ.{head, tail}
use backend_architecture.Prelude.{
  ◌≡◌, refl, ap, ◌∙◌, inl, inr, Option, some, List, [], ◌∷◌, take, take_nil, ok, arith,
  Result-cases, Post-ok, Post-always,
}
use backend_architecture.Services.Postgres.{IsPool, IsClient}
use backend_architecture.Migrate.{
  Migration, AppliedMigration, Database, MigrateContext, record_migration, run_content, rows_of,
  upsert,
}
use backend_architecture.Migrate.Files.{load_migration_files}
use backend_architecture.Migrate.Runner.{returned, is_pending, keep_migrations, run_main}
use backend_architecture.Migrate.Runner.Prefix.{Applies, AppliesAll}
use backend_architecture.Migrate.Runner.Main.{
  LeavesDatabase, with_table, pending_of, Stopped, Migrated, Migrated-Stopped, run_main-Migrated,
}
use backend_architecture.Migrate.Runner.Records.{
  AllDistinct, record_all, IsRecorded, is_pending-IsRecorded,
}

-- Where all files are recorded, none is pending.
nothing_pending :
    (rows : List AppliedMigration) (ms : List Migration)
    → ((m : Migration) → Memᴰ m ms → IsRecorded rows m)
    → keep_migrations (is_pending rows) ms ≡ []
nothing_pending rows [] h = refl
nothing_pending rows (m ∷ ms) h =
    let rest = nothing_pending rows ms (λ x i. h x (tail i)) in
    let here = h m (head refl) in rw (keep_migrations, is_pending, here, rest)

with_table-eq :
    {D : Type 0} (rows : List AppliedMigration) (t : Database D)
    → t.schema_migrations ≡ some rows
    → with_table t ≡ t
with_table-eq rows t e =
    let same : ◌≡◌ {A = Option (List AppliedMigration)} (some (rows_of t.schema_migrations))
        t.schema_migrations =
      ground arith in
    ap (λ s. record t { schema_migrations = s }) same

module _ {W D : Type 0} (ctx : MigrateContext W D) where
  Applies-rows :
      (m : Migration) (t t' : Database D) (rows : List AppliedMigration)
      → t.schema_migrations ≡ some rows
      → Applies ctx m t t'
      → t'.schema_migrations ≡ some (upsert m rows)
  unfolding run_content record_migration
  Applies-rows m t t' rows e h = elim (Result-cases (ctx.sql m.content t.schema)) [
    | inl ((a, d), done) ↦ ground arith
    | inr (x, failed) ↦ absurd (ground arith)
  ]

  AppliesAll-rows :
      (ms : List Migration) (t t' : Database D) (rows : List AppliedMigration)
      → t.schema_migrations ≡ some rows
      → AppliesAll ctx ms t t'
      → t'.schema_migrations ≡ some (record_all ms rows)
  AppliesAll-rows [] t t' rows e h = ap (λ u. u.schema_migrations) h ∙ e
  AppliesAll-rows (m ∷ ms) t t' rows e (t1, a, h) =
      AppliesAll-rows ms t1 t' (upsert m rows) (Applies-rows m t t1 rows e a) h

  module _ (committed working : W → Database D) (session_laws : IsPool ctx.session committed)
      (laws : IsClient ctx.client committed working) (quiet : LeavesDatabase ctx committed) where
    Stopped-unchanged :
        (ms : List Migration) (rows : List AppliedMigration) (t : Database D) (w : W)
        → t.schema_migrations ≡ some rows
        → keep_migrations (is_pending rows) ms ≡ []
        → Stopped ctx committed ms t w
        → committed w ≡ t
    Stopped-unchanged ms rows t w e none_left (inl same) = same
    Stopped-unchanged ms rows t w e none_left (inr (inl same)) = same ∙ with_table-eq rows t e
    Stopped-unchanged ms rows t w e none_left (inr (inr (unmodified, (n, h)))) =
        let empty : take n (pending_of ms t) ≡ [] =
          ap (λ r. take n (keep_migrations (is_pending (rows_of r)) ms)) e
          ∙ (ap (take n) none_left ∙ take_nil n) in
        subst (λ l. AppliesAll ctx l (with_table t) (committed w)) empty h ∙ with_table-eq rows t e

    -- The files having different versions: after a run that has returned, another run with the same
    -- files, on the database that the first one left, changes nothing in it, whatever fails.
    pub run_main-run_main :
        (m : Migration) (ms : List Migration) (w v : W)
        → AllDistinct (m ∷ ms)
        → (load_migration_files ctx w).0 ≡ ok (m ∷ ms)
        → (run_main ctx w).0 ≡ ok returned
        → committed v ≡ committed (run_main ctx w).1
        → (load_migration_files ctx v).0 ≡ ok (m ∷ ms)
        → committed (run_main ctx v).1 ≡ committed v
    run_main-run_main m ms w v distinct read done same read' =
        let t = committed w in
        let rows = rows_of t.schema_migrations in
        let (unmodified, applied) =
          Post-ok (Stopped ctx committed (m ∷ ms) t) (Migrated ctx committed (m ∷ ms) t)
            (run_main ctx w) returned
            (run_main-Migrated ctx committed working session_laws laws quiet m ms w read) done in
        let recorded = record_all (keep_migrations (is_pending rows) (m ∷ ms)) rows in
        let there : (committed v).schema_migrations ≡ some recorded =
          ap (λ u. u.schema_migrations) same
          ∙ AppliesAll-rows (keep_migrations (is_pending rows) (m ∷ ms)) (with_table t)
              (committed (run_main ctx w).1) rows refl applied in
        Stopped-unchanged (m ∷ ms) recorded (committed v) (run_main ctx v).1 there
          (nothing_pending recorded (m ∷ ms)
            (λ x i. is_pending-IsRecorded x (m ∷ ms) rows distinct unmodified i))
          (Post-always (Stopped ctx committed (m ∷ ms) (committed v))
            (Migrated ctx committed (m ∷ ms) (committed v)) (run_main ctx v)
            (run_main-Migrated ctx committed working session_laws laws quiet m ms v read')
            (λ a u h. Migrated-Stopped ctx committed (m ∷ ms) (committed v) a u h))
