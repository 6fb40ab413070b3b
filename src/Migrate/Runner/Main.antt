-- ===== src/Migrate/Runner/Main.antt =====
-- scripts/migrate.mjs: what a run of `main` leaves in the database.
use mathlib.Core.Path.{subst}
use backend_architecture.Prelude.{
  ◌≡◌, sym, ◌∙◌, ◌⊎◌, inl, inr, Bool, false, some, List, ◌∷◌, if◌then◌else◌, Result, ok, err, pure,
  throw, arith, Bool-cases, Post, bind-Post, Post-intro, Post-weaken,
}
use backend_architecture.Services.Postgres.{IsPool, IsClient}
use backend_architecture.Migrate.{
  Migration, Database, MigrateContext, create_table, select_applied, rows_of,
}
use backend_architecture.Migrate.Files.{load_migration_files}
use backend_architecture.Migrate.Runner.{
  Ending, returned, exited, is_modified, is_pending, any_migration, keep_migrations,
  get_applied_versions, apply_pending, migrate, run_main, finally_end, run_files, with_end,
}
use backend_architecture.Migrate.Runner.Prefix.{
  AppliesAll, AppliesPrefix, AllEnded, apply_pending-AllEnded, AppliesAll-AppliesPrefix,
}

-- Files and connecting leave the database alone.
pub record LeavesDatabase {W D : Type 0} (ctx : MigrateContext W D) (committed : W → Database D)
    : Type 0 where
  pub loading : (w : W) → committed (load_migration_files ctx w).1 ≡ committed w
  pub connecting : (w : W) → committed (ctx.connect w).1 ≡ committed w
  pub ending : (w : W) → committed (ctx.end_client w).1 ≡ committed w

-- The database with the table of the applied migrations.
abbrev pub with_table : {D : Type 0} → Database D → Database D
with_table t = record t { schema_migrations = some (rows_of t.schema_migrations) }

abbrev pub pending_of : {D : Type 0} → List Migration → Database D → List Migration
pending_of ms t = keep_migrations (is_pending (rows_of t.schema_migrations)) ms

abbrev pub has_modified : {D : Type 0} → List Migration → Database D → Bool
has_modified ms t = any_migration (is_modified (rows_of t.schema_migrations)) ms

module _ {W D : Type 0} (ctx : MigrateContext W D) (committed : W → Database D) where
  -- The database is as it was, but for the table; or no applied file is modified, and the first of
  -- the pending migrations are applied.
  abbrev pub Stopped : List Migration → Database D → W → Type 0
  Stopped ms t w =
      (committed w ≡ t)
      ⊎ ((committed w ≡ with_table t)
          ⊎ ((has_modified ms t ≡ false)
              × AppliesPrefix ctx (pending_of ms t) (with_table t) (committed w)))

  -- After a run that returns, all the pending migrations are applied, and no applied file is modified.
  abbrev pub Migrated : List Migration → Database D → Ending → W → Type 0
  Migrated ms t returned w =
      (has_modified ms t ≡ false) × AppliesAll ctx (pending_of ms t) (with_table t) (committed w)
  Migrated ms t exited w = Stopped ms t w

  pub Migrated-Stopped :
      (ms : List Migration) (t : Database D) (ending : Ending) (w : W)
      → Migrated ms t ending w
      → Stopped ms t w
  Migrated-Stopped ms t returned w (unmodified, all_applied) = inr (
      inr (
        unmodified,
        AppliesAll-AppliesPrefix ctx (pending_of ms t) (with_table t) (committed w) all_applied,
      ))
  Migrated-Stopped ms t exited w h = h

  module _ (working : W → Database D) (session_laws : IsPool ctx.session committed)
      (laws : IsClient ctx.client committed working) (quiet : LeavesDatabase ctx committed) where
    get_applied_versions-Post :
        (ms : List Migration) (t : Database D) (w : W)
        → committed w ≡ t
        → Post
            (Stopped ms t)
            (λ rows w'. (committed w' ≡ with_table t) × (rows ≡ rows_of t.schema_migrations))
            (get_applied_versions ctx w)
    unfolding get_applied_versions create_table select_applied
    get_applied_versions-Post ms t w c =
        bind-Post (Stopped ms t) (λ _ w'. committed w' ≡ with_table t) _
          (ctx.session.query create_table) (λ _. ctx.session.query select_applied) w
          (Post-intro _ _ (ctx.session.query create_table w)
            (λ a e. let q = session_laws.query_ok create_table w a e in ground arith)
            (λ x e. elim (session_laws.query_err create_table w x e) [
              | inl kept ↦ inl (kept ∙ c)
              | inr (a, q) ↦ inr (inl ground arith)
            ]))
          (λ _ w1 c1.
            Post-intro _ _ (ctx.session.query select_applied w1)
              (λ a e. let q = session_laws.query_ok select_applied w1 a e in ground arith)
              (λ x e. elim (session_laws.query_err select_applied w1 x e) [
                | inl kept ↦ inr (inl (kept ∙ c1))
                | inr (a, q) ↦ inr (inl ground arith)
              ]))

    AllEnded-Migrated :
        (ms : List Migration) (t : Database D)
        → has_modified ms t ≡ false
        → (ending : Ending) (w : W)
        → AllEnded ctx committed working laws (pending_of ms t) (with_table t) ending w
        → Migrated ms t ending w
    AllEnded-Migrated ms t unmodified returned w h = (unmodified, h)
    AllEnded-Migrated ms t unmodified exited w h = inr (inr (unmodified, h))

    unmodified_migrate :
        (ms : List Migration) (t : Database D) (w : W)
        → committed w ≡ with_table t
        → Post
            (Stopped ms t)
            (Migrated ms t)
            ((if has_modified ms t then pure exited else apply_pending ctx (pending_of ms t)) w)
    unmodified_migrate ms t w c = elim (Bool-cases (has_modified ms t)) [
      | inl modified ↦ rw modified (inr (inl c))
      | inr unmodified ↦
          subst
            (λ b.
              Post (Stopped ms t) (Migrated ms t)
                ((if b then pure exited else apply_pending ctx (pending_of ms t)) w))
            (sym unmodified)
            (Post-weaken (λ w'. AppliesPrefix ctx (pending_of ms t) (with_table t) (committed w'))
              (Stopped ms t) (AllEnded ctx committed working laws (pending_of ms t) (with_table t))
              (Migrated ms t) (apply_pending ctx (pending_of ms t) w)
              (λ w' h. inr (inr (unmodified, h))) (AllEnded-Migrated ms t unmodified)
              (apply_pending-AllEnded ctx committed working laws (pending_of ms t) (with_table t) w
                c))
    ]

    migrate-Migrated :
        (ms : List Migration) (t : Database D) (w : W)
        → committed w ≡ t
        → Post (Stopped ms t) (Migrated ms t) (migrate ctx ms w)
    unfolding migrate
    migrate-Migrated ms t w c =
        bind-Post (Stopped ms t)
          (λ rows w'. (committed w' ≡ with_table t) × (rows ≡ rows_of t.schema_migrations))
          (Migrated ms t) (get_applied_versions ctx)
          (λ applied.
            if any_migration (is_modified applied) ms
            then pure exited
            else apply_pending ctx (keep_migrations (is_pending applied) ms))
          w (get_applied_versions-Post ms t w c)
          (λ rows w' (c', same).
            subst
              (λ rs. Post (Stopped ms t) (Migrated ms t) (
                (if any_migration (is_modified rs) ms
                    then pure exited
                    else apply_pending ctx (keep_migrations (is_pending rs) ms))
                  w'))
              (sym same) (unmodified_migrate ms t w' c'))

    finally_end-Migrated :
        (ms : List Migration) (t : Database D) (p : Result Ending × W)
        → Post (Stopped ms t) (Migrated ms t) p
        → Post (Stopped ms t) (Migrated ms t) (finally_end ctx p.0 p.1)
    finally_end-Migrated ms t (ok exited, w) h = h
    finally_end-Migrated ms t (ok returned, w) h =
        let kept = quiet.ending w in
        bind-Post (Stopped ms t) (λ _ w'. Migrated ms t returned w') (Migrated ms t) ctx.end_client
          (λ _. pure returned) w
          (Post-intro _ _ (ctx.end_client w) (λ _ e. rw kept h)
            (λ x e. rw kept (Migrated-Stopped ms t returned w h)))
          (λ _ w' h'. h')
    finally_end-Migrated ms t (err x, w) h =
        let kept = quiet.ending w in
        bind-Post (Stopped ms t) (λ _ w'. Stopped ms t w') (Migrated ms t) ctx.end_client
          (λ _. throw x) w (Post-intro _ _ (ctx.end_client w) (λ _ e. rw kept h) (λ y e. rw kept h))
          (λ _ w' h'. h')

    -- Once the migration files are read and there are some, whatever fails at any point of `main`, the
    -- database is as it was before, with or without an empty table of the applied migrations, or holds
    -- the first of the pending migrations, any number of them, each with its record and in the order of
    -- the files. If `main` returns, it holds all of them. Where an applied file has another checksum by
    -- now, none is applied and `main` does not return.
    pub run_main-Migrated :
        (m : Migration) (ms : List Migration) (w : W)
        → (load_migration_files ctx w).0 ≡ ok (m ∷ ms)
        → Post (Stopped (m ∷ ms) (committed w)) (Migrated (m ∷ ms) (committed w)) (run_main ctx w)
    unfolding run_main
    run_main-Migrated m ms w read =
        let t = committed w in
        bind-Post (Stopped (m ∷ ms) t) (λ files w'. (files ≡ m ∷ ms) × (committed w' ≡ t))
          (Migrated (m ∷ ms) t) (load_migration_files ctx) (run_files ctx) w
          (Post-intro _ _ (load_migration_files ctx w) (λ files e. (ground arith, quiet.loading w))
            (λ x e. inl (quiet.loading w)))
          (λ files w1 (same, c).
            subst (λ fs. Post (Stopped (m ∷ ms) t) (Migrated (m ∷ ms) t) (run_files ctx fs w1))
              (sym same)
              (bind-Post (Stopped (m ∷ ms) t) (λ _ w'. committed w' ≡ t) (Migrated (m ∷ ms) t)
                ctx.connect (λ _. with_end ctx (migrate ctx (m ∷ ms))) w1
                (Post-intro _ _ (ctx.connect w1) (λ _ e. quiet.connecting w1 ∙ c)
                  (λ x e. inl (quiet.connecting w1 ∙ c)))
                (λ _ w2 c2.
                  finally_end-Migrated (m ∷ ms) t (migrate ctx (m ∷ ms) w2)
                    (migrate-Migrated (m ∷ ms) t w2 c2))))
