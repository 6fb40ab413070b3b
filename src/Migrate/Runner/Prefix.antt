-- ===== src/Migrate/Runner/Prefix.antt =====
-- scripts/migrate.mjs: whatever fails, the migrations committed are the first ones pending, each with its record.
use mathlib.Core.Path.{subst}
use backend_architecture.Prelude.{
  ℕ, suc, ◌≡◌, refl, sym, ap, ◌∙◌, ◌⊎◌, inl, inr, List, [], ◌∷◌, length, take, Result, ok, err,
  Action, pure, ◌>>=◌, try_catch, arith, Post, bind-Post, try-Post, Post-intro, Post-weaken,
  take_all,
}
use backend_architecture.Services.Postgres.{IsClient}
use backend_architecture.Migrate.{
  Migration, Database, MigrateContext, record_migration, run_content, Statement,
}
use backend_architecture.Migrate.Runner.{
  Ending, returned, exited, commit_migration, apply_migration, apply_pending,
}

abbrev then_recorded :
    {D : Type 0} → Migration → Result (Unit {0} × Database D) → Result (Unit {0} × Database D)
then_recorded m (ok (_, t)) = record_migration m t
then_recorded m (err e) = err e

module _ {W D : Type 0} (ctx : MigrateContext W D) where
  -- `t'` is `t` after the migration and its record.
  abbrev pub Applies : Migration → Database D → Database D → Type 0
  Applies m t t' = then_recorded m (run_content ctx.sql m.content t) ≡ ok (tt, t')

  -- `t'` is `t` after all the migrations, in their order.
  abbrev pub AppliesAll : List Migration → Database D → Database D → Type 0
  AppliesAll [] t t' = t' ≡ t
  AppliesAll (m ∷ ms) t t' = (t1 : Database D) × (Applies m t t1) × AppliesAll ms t1 t'

  -- `t'` is `t` after the first of the migrations, any number of them.
  abbrev pub AppliesPrefix : List Migration → Database D → Database D → Type 0
  AppliesPrefix ms t t' = (n : ℕ) × AppliesAll (take n ms) t t'

  pub AppliesAll-AppliesPrefix :
      (ms : List Migration) (t t' : Database D) → AppliesAll ms t t' → AppliesPrefix ms t t'
  AppliesAll-AppliesPrefix ms t t' h =
      (length ms, subst (λ l. AppliesAll l t t') (sym (take_all (length ms) ms (omega arith))) h)

  module _ (committed working : W → Database D) (laws : IsClient ctx.client committed working) where
    -- What a failure leaves: the migration applied, if only the answer to its commit was lost, or not.
    abbrev Uncertain : Migration → Database D → W → Type 0
    Uncertain m t w = (committed w ≡ t) ⊎ Applies m t (committed w)

    abbrev Ended : Migration → Database D → Ending → W → Type 0
    Ended m t returned w = Applies m t (committed w)
    Ended m t exited w = Uncertain m t w

    -- A statement that fails, or succeeds, on the working tables leaves the committed ones.
    execute-Post :
        {A : Type 0} (q : Statement (Database D) A) (m : Migration) (t u : Database D) (w : W)
        → committed w ≡ t
        → working w ≡ u
        → Post
            (Uncertain m t)
            (λ a w'. (committed w' ≡ t) × (q u ≡ ok (a, working w')))
            (ctx.client.execute q w)
    execute-Post q m t u w c h =
        Post-intro _ _ (ctx.client.execute q w)
          (λ a e. (laws.execute_keeps q w ∙ c, ap q (sym h) ∙ laws.execute_ok q w a e))
          (λ x e. inl (laws.execute_keeps q w ∙ c))

    rolled_back :
        (m : Migration) (t : Database D) (w : W)
        → Uncertain m t w
        → Post (Uncertain m t) (Ended m t) ((ctx.client.rollback >>= λ _. pure exited) w)
    rolled_back m t w u =
        let kept : Uncertain m t (ctx.client.rollback w).1 = rw (laws.rollback_keeps w) u in
        bind-Post (Uncertain m t) (λ _ w'. Uncertain m t w') (Ended m t) ctx.client.rollback
          (λ _. pure exited) w (Post-intro _ _ (ctx.client.rollback w) (λ _ e. kept) (λ x e. kept))
          (λ _ w' u'. u')

    commit_migration-Ended :
        (m : Migration) (t : Database D) (w : W)
        → committed w ≡ t
        → working w ≡ t
        → Post (Uncertain m t) (Ended m t) (commit_migration ctx m w)
    commit_migration-Ended m t w c h =
        bind-Post (Uncertain m t) _ (Ended m t) (ctx.client.execute (run_content ctx.sql m.content))
          (λ _. ctx.client.execute (record_migration m) >>= λ _.
            ctx.client.commit >>= λ _. pure returned)
          w (execute-Post (run_content ctx.sql m.content) m t t w c h)
          (λ _ w1 (c1, run).
            bind-Post (Uncertain m t) _ (Ended m t) (ctx.client.execute (record_migration m))
              (λ _. ctx.client.commit >>= λ _. pure returned) w1
              (execute-Post (record_migration m) m t (working w1) w1 c1 refl)
              (λ _ w2 (c2, rec).
                let applied : Applies m t (working w2) = ap (then_recorded m) run ∙ rec in
                bind-Post (Uncertain m t) (λ _ w'. Applies m t (committed w')) (Ended m t)
                  ctx.client.commit (λ _. pure returned) w2
                  (Post-intro _ _ (ctx.client.commit w2)
                    (λ _ e. subst (Applies m t) (sym (laws.commit_ok w2 e)) applied)
                    (λ x e. elim (laws.commit_err w2 x e) [
                      | inl kept ↦ inl (kept ∙ c2)
                      | inr published ↦ inr (subst (Applies m t) (sym published) applied)
                    ]))
                  (λ _ w3 done. done)))

    apply_migration-Ended :
        (m : Migration) (w : W)
        → Post (Uncertain m (committed w)) (Ended m (committed w)) (apply_migration ctx m w)
    unfolding apply_migration
    apply_migration-Ended m w =
        let t = committed w in
        bind-Post (Uncertain m t) (λ _ w'. (committed w' ≡ t) × (working w' ≡ t)) (Ended m t)
          ctx.client.begin
          (λ _. try_catch (commit_migration ctx m) (λ _. ctx.client.rollback >>= λ _. pure exited))
          w
          (Post-intro _ _ (ctx.client.begin w) (λ _ e. let b = laws.begin_ok w e in (b.1, b.0))
            (λ x e. inl (laws.begin_err w x e)))
          (λ _ w1 (c, h).
            try-Post (Uncertain m t) (Uncertain m t) (Ended m t) (commit_migration ctx m)
              (λ _. ctx.client.rollback >>= λ _. pure exited) w1 (commit_migration-Ended m t w1 c h)
              (λ x w2 u. rolled_back m t w2 u))

    -- All of them, or the first ones.
    abbrev pub AllEnded : List Migration → Database D → Ending → W → Type 0
    AllEnded ms t returned w = AppliesAll ms t (committed w)
    AllEnded ms t exited w = AppliesPrefix ms t (committed w)

    Uncertain-AppliesPrefix :
        (m : Migration) (ms : List Migration) (t : Database D) (w : W)
        → Uncertain m t w
        → AppliesPrefix (m ∷ ms) t (committed w)
    Uncertain-AppliesPrefix m ms t w (inl same) = (0, same)
    Uncertain-AppliesPrefix m ms t w (inr applied) = (1, (committed w, applied, refl))

    AppliesPrefix-cons :
        (m : Migration) (ms : List Migration) (t t1 t' : Database D)
        → Applies m t t1
        → AppliesPrefix ms t1 t'
        → AppliesPrefix (m ∷ ms) t t'
    AppliesPrefix-cons m ms t t1 t' a (n, rest) = (suc n, (t1, a, rest))

    AllEnded-cons :
        (m : Migration) (ms : List Migration) (t t1 : Database D)
        → Applies m t t1
        → (ending : Ending) (w : W) → AllEnded ms t1 ending w
        → AllEnded (m ∷ ms) t ending w
    AllEnded-cons m ms t t1 a returned w h = (t1, a, h)
    AllEnded-cons m ms t t1 a exited w h = AppliesPrefix-cons m ms t t1 (committed w) a h

    abbrev continue_with : List Migration → Ending → Action W Ending
    continue_with ms returned = apply_pending ctx ms
    continue_with ms exited = pure exited

    apply_pending-continue :
        (m : Migration) (ms : List Migration) (t : Database D) (ending : Ending) (w : W)
        → ((w' : W)
            → Post
                (λ w''. AppliesPrefix ms (committed w') (committed w''))
                (AllEnded ms (committed w'))
                (apply_pending ctx ms w'))
        → Ended m t ending w
        → Post
            (λ w'. AppliesPrefix (m ∷ ms) t (committed w'))
            (AllEnded (m ∷ ms) t)
            (continue_with ms ending w)
    apply_pending-continue m ms t exited w next e = Uncertain-AppliesPrefix m ms t w e
    apply_pending-continue m ms t returned w next applied =
        Post-weaken (λ w'. AppliesPrefix ms (committed w) (committed w')) _
          (AllEnded ms (committed w)) (AllEnded (m ∷ ms) t) (apply_pending ctx ms w)
          (λ w' h. AppliesPrefix-cons m ms t (committed w) (committed w') applied h)
          (AllEnded-cons m ms t (committed w) applied) (next w)

    pub apply_pending-AllEnded :
        (ms : List Migration) (t : Database D) (w : W)
        → committed w ≡ t
        → Post (λ w'. AppliesPrefix ms t (committed w')) (AllEnded ms t) (apply_pending ctx ms w)
    unfolding apply_pending
    apply_pending-AllEnded [] t w c = c
    apply_pending-AllEnded (m ∷ ms) t w c =
        bind-Post (λ w'. AppliesPrefix (m ∷ ms) t (committed w')) (Ended m t) (AllEnded (m ∷ ms) t)
          (apply_migration ctx m) (continue_with ms) w
          (Post-weaken (Uncertain m t) _ (Ended m t) (Ended m t) (apply_migration ctx m w)
            (λ w' u. Uncertain-AppliesPrefix m ms t w' u) (λ a w' e. e)
            (subst (λ u. Post (Uncertain m u) (Ended m u) (apply_migration ctx m w)) c
              (apply_migration-Ended m w)))
          (λ ending w' e.
            apply_pending-continue m ms t ending w'
              (λ w''. apply_pending-AllEnded ms (committed w'') w'' refl) e)
