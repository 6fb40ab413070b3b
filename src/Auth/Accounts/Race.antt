-- ===== src/Auth/Accounts/Race.antt =====
-- packages/api-service/src/routes/auth.routes.ts: two failed logins that have both read the account before
-- either of them writes.
use backend_architecture.Prelude.{
  ℕ, ◌+◌, ◌≡◌, ap, ◌∙◌, Option, some, Text, ok, pure, ◌>>=◌, arith, Post, bind-Post, Post-intro,
  Post-ok,
}
use backend_architecture.Services.Postgres.{IsPool}
use backend_architecture.Auth.{Account, AuthTables}
use backend_architecture.Auth.Accounts.{
  AccountContext, LoginReply, invalid_credentials, find_email, update_failures, set_failures,
  count_ip_failure, note_failure, lock_time, fail,
}
use backend_architecture.Auth.Accounts.Quiet.{LeavesTables, count_ip_failure-tables}
use backend_architecture.Auth.Accounts.Lockout.{
  with_failure, find_email-set_failures, Counted, Anyhow, fail-Counted,
}

module _ {W : Type 0} (ctx : AccountContext W) (tables : W → AuthTables)
    (laws : IsPool ctx.auth.pool tables) (quiet : LeavesTables ctx tables) (email : Text) where
  -- The account was read before the failure that the table holds.
  note_failure-stale :
      (a : Account) (l : Option ℕ) (w : W)
      → find_email email (tables w).users ≡ some (with_failure a l)
      → Post
          (Anyhow ctx tables laws quiet email)
          (λ _ w'. Counted ctx tables laws quiet email a w')
          (note_failure ctx a w)
  unfolding note_failure update_failures
  note_failure-stale a l w found =
      let locked_until = lock_time ctx (a.failed_login_count + 1) (ctx.auth.now_ms w) in
      let q = update_failures a.id (a.failed_login_count + 1) locked_until in
      let kept =
        find_email-set_failures email (with_failure a l) (a.failed_login_count + 1) locked_until
          (tables w).users found in
      Post-intro _ _ (ctx.auth.pool.query q w)
        (λ _ done.
          let e = laws.query_ok q w tt done in
          let users : (tables (ctx.auth.pool.query q w).1).users
              ≡ set_failures a.id (a.failed_login_count + 1) locked_until (tables w).users =
            ground arith in
          (ctx.auth.now_ms w, ap (find_email email) users ∙ kept))
        (λ x failed. tt)

  fail-stale :
      (client_id : Text) (a : Account) (l : Option ℕ) (w : W)
      → find_email email (tables w).users ≡ some (with_failure a l)
      → Post
          (Anyhow ctx tables laws quiet email)
          (λ _ w'. Counted ctx tables laws quiet email a w')
          (fail ctx client_id a w)
  fail-stale client_id a l w found =
      let same = count_ip_failure-tables ctx tables laws quiet client_id w in
      bind-Post (Anyhow ctx tables laws quiet email) (λ _ w'. tables w' ≡ tables w)
        (λ _ w'. Counted ctx tables laws quiet email a w') (count_ip_failure ctx client_id)
        (λ _. note_failure ctx a >>= λ _. pure invalid_credentials) w
        (Post-intro _ _ (count_ip_failure ctx client_id w) (λ _ _. same) (λ x _. tt))
        (λ _ w1 kept.
          bind-Post (Anyhow ctx tables laws quiet email)
            (λ _ w'. Counted ctx tables laws quiet email a w')
            (λ _ w'. Counted ctx tables laws quiet email a w') (note_failure ctx a)
            (λ _. pure invalid_credentials) w1
            (note_failure-stale a l w1 (ap (λ t. find_email email t.users) kept ∙ found))
            (λ _ w2 h. h))

  -- Two logins have read the same account and found its password wrong before either writes: after the
  -- branch of the failure has run for both, one after the other, the account has one failure more
  -- than they read, not two.
  pub fail-fail :
      (client_id other_id : Text) (a : Account) (w : W) (reply other_reply : LoginReply)
      → find_email email (tables w).users ≡ some a
      → (fail ctx client_id a w).0 ≡ ok reply
      → (fail ctx other_id a (fail ctx client_id a w).1).0 ≡ ok other_reply
      → (l : Option ℕ) × (find_email email
            (tables (fail ctx other_id a (fail ctx client_id a w).1).1).users
          ≡ some (with_failure a l))
  fail-fail client_id other_id a w reply other_reply found done done' =
      let w1 = (fail ctx client_id a w).1 in
      let (now, counted) =
        Post-ok (Anyhow ctx tables laws quiet email)
          (λ _ w'. Counted ctx tables laws quiet email a w') (fail ctx client_id a w) reply
          (fail-Counted ctx tables laws quiet email client_id a w found) done in
      let (later, again) =
        Post-ok (Anyhow ctx tables laws quiet email)
          (λ _ w'. Counted ctx tables laws quiet email a w') (fail ctx other_id a w1) other_reply
          (fail-stale other_id a (lock_time ctx (a.failed_login_count + 1) now) w1 counted) done' in
      (lock_time ctx (a.failed_login_count + 1) later, again)
