-- ===== src/Auth/Accounts/Lockout.antt =====
-- packages/api-service/src/routes/auth.routes.ts: failed logins are counted, and lock the account.
use backend_architecture.Prelude.{
  ℕ, ◌+◌, ◌≡◌, ap, ◌∙◌, inl, inr, true, Option, some, List, [], ◌∷◌, Text, text_eq, text_eq_refl,
  to_lower, ok, pure, ◌>>=◌, arith, Bool-cases, Post, bind-Post, Post-intro,
}
use backend_architecture.Services.Postgres.{IsPool}
use backend_architecture.Auth.{Account, AuthTables}
use backend_architecture.Auth.Accounts.{
  AccountContext, Credentials, LoginReply, invalid_credentials, find_email, update_failures,
  set_failures, count_ip_failure, note_failure, lock_time, fail, login,
}
use backend_architecture.Auth.Accounts.Quiet.{LeavesTables, count_ip_failure-tables}

-- The account with one more failure.
abbrev pub with_failure : Account → Option ℕ → Account
with_failure a locked_until = record a {
  failed_login_count = a.failed_login_count + 1;
  locked_until = locked_until;
}

pub find_email-set_failures :
    (email : Text) (a : Account) (n : ℕ) (l : Option ℕ) (accounts : List Account)
    → find_email email accounts ≡ some a
    → find_email email (set_failures a.id n l accounts)
      ≡ some (record a { failed_login_count = n; locked_until = l })
find_email-set_failures email a n l [] found = cc
find_email-set_failures email a n l (x ∷ accounts) found =
    elim (Bool-cases (text_eq x.email email)) [
      | inl here ↦
          let same : x ≡ a = ground arith in
          let self : text_eq x.id a.id ≡ true = rw same (text_eq_refl a.id) in ground arith
      | inr other ↦
          let rest = find_email-set_failures email a n l accounts (ground arith) in ground arith
    ]

module _ {W : Type 0} (ctx : AccountContext W) (tables : W → AuthTables)
    (laws : IsPool ctx.auth.pool tables) (quiet : LeavesTables ctx tables) (email : Text) where
  -- The account under the email has one more failure than before, and is locked from some moment on
  -- if that reaches the limit, and not locked otherwise.
  abbrev pub Counted : Account → W → Type 0
  Counted a w =
      (now : ℕ) × (find_email email (tables w).users
        ≡ some (with_failure a (lock_time ctx (a.failed_login_count + 1) now)))

  abbrev pub Anyhow : W → Type 0
  Anyhow w = Unit

  abbrev CountedIfInvalid : Account → LoginReply → W → Type 0
  CountedIfInvalid a reply w = reply ≡ invalid_credentials → Counted a w

  note_failure-Counted :
      (a : Account) (w : W)
      → find_email email (tables w).users ≡ some a
      → Post Anyhow (λ _ w'. Counted a w') (note_failure ctx a w)
  unfolding note_failure update_failures
  note_failure-Counted a w found =
      let q =
        update_failures a.id (a.failed_login_count + 1)
          (lock_time ctx (a.failed_login_count + 1) (ctx.auth.now_ms w)) in
      let kept =
        find_email-set_failures email a (a.failed_login_count + 1)
          (lock_time ctx (a.failed_login_count + 1) (ctx.auth.now_ms w)) (tables w).users found in
      Post-intro _ _ (ctx.auth.pool.query q w)
        (λ _ done.
          let e = laws.query_ok q w tt done in
          let locked_until = lock_time ctx (a.failed_login_count + 1) (ctx.auth.now_ms w) in
          let users : (tables (ctx.auth.pool.query q w).1).users
              ≡ set_failures a.id (a.failed_login_count + 1) locked_until (tables w).users =
            ground arith in
          (ctx.auth.now_ms w, ap (find_email email) users ∙ kept))
        (λ x failed. tt)

  pub fail-Counted :
      (client_id : Text) (a : Account) (w : W)
      → find_email email (tables w).users ≡ some a
      → Post Anyhow (λ _ w'. Counted a w') (fail ctx client_id a w)
  fail-Counted client_id a w found =
      let same = count_ip_failure-tables ctx tables laws quiet client_id w in
      bind-Post Anyhow (λ _ w'. tables w' ≡ tables w) (λ _ w'. Counted a w')
        (count_ip_failure ctx client_id) (λ _. note_failure ctx a >>= λ _. pure invalid_credentials)
        w (Post-intro _ _ (count_ip_failure ctx client_id w) (λ _ _. same) (λ x _. tt))
        (λ _ w1 kept.
          bind-Post Anyhow (λ _ w'. Counted a w') (λ _ w'. Counted a w') (note_failure ctx a)
            (λ _. pure invalid_credentials) w1
            (note_failure-Counted a w1 (ap (λ t. find_email email t.users) kept ∙ found))
            (λ _ w2 h. h))

  -- Logins one after the other, by any clients and with any passwords, each answered with the status
  -- 401, and the world after them.
  abbrev pub Refused : List (Text × Credentials) → W → Type 0
  Refused [] w = Unit
  Refused ((client_id, c) ∷ attempts) w =
      (to_lower c.email ≡ email)
      × ((login ctx client_id c w).0 ≡ ok invalid_credentials)
      × Refused attempts (login ctx client_id c w).1

  abbrev pub after_attempts : List (Text × Credentials) → W → W
  after_attempts [] w = w
  after_attempts ((client_id, c) ∷ attempts) w = after_attempts attempts (login ctx client_id c w).1
