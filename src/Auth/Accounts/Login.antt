-- ===== src/Auth/Accounts/Login.antt =====
-- packages/api-service/src/routes/auth.routes.ts: who is logged in.
use backend_architecture.Prelude.{
  ◌≡◌, refl, inl, inr, Bool, true, false, Option, none, some, Text, to_lower, ok, pure, ◌>>=◌,
  await, arith, Bool-cases, bind-eq-ok,
}
use backend_architecture.Services.Postgres.{IsPool}
use backend_architecture.Auth.{User, Account, AuthTables, TokenPair, create_tokens}
use backend_architecture.Auth.Accounts.{
  AccountContext, Credentials, LoginReply, invalid_credentials, logged_in, user_of, is_locked,
  exceeds, failures_of, find_email, select_account, update_failures, count_ip_failure, note_failure,
  succeed, fail, login_verified, login_account, login_found, login_admitted, login, ip_key,
}
use backend_architecture.Auth.Accounts.Quiet.{LeavesTables}

module _ {W : Type 0} (ctx : AccountContext W) where
  pub succeed-logged_in :
      (a : Account) (w : W) (reply : LoginReply)
      → (succeed ctx a w).0 ≡ ok reply
      → (tokens : TokenPair) × (reply ≡ logged_in (user_of a) tokens)
  succeed-logged_in a w reply done =
      let (_, cleared, rest) =
        bind-eq-ok (ctx.auth.pool.query (update_failures a.id 0 none))
          (λ _.
            create_tokens ctx.auth (user_of a) >>= λ tokens. pure (logged_in (user_of a) tokens))
          w reply done in
      let (tokens, made, end) =
        bind-eq-ok (create_tokens ctx.auth (user_of a))
          (λ tokens. pure (logged_in (user_of a) tokens))
          (ctx.auth.pool.query (update_failures a.id 0 none) w).1 reply rest in
      (tokens, ground arith)

  pub fail-invalid :
      (client_id : Text) (a : Account) (w : W) (reply : LoginReply)
      → (fail ctx client_id a w).0 ≡ ok reply
      → reply ≡ invalid_credentials
  fail-invalid client_id a w reply done =
      let (_, counted, rest) =
        bind-eq-ok (count_ip_failure ctx client_id)
          (λ _. note_failure ctx a >>= λ _. pure invalid_credentials) w reply done in
      let (_, noted, end) =
        bind-eq-ok (note_failure ctx a) (λ _. pure invalid_credentials)
          (count_ip_failure ctx client_id w).1 reply rest in
      ground arith

  unknown-invalid :
      (client_id password : Text) (w : W) (reply : LoginReply)
      → (login_found ctx client_id password none w).0 ≡ ok reply
      → reply ≡ invalid_credentials
  unknown-invalid client_id password w reply done =
      let (_, counted, end) =
        bind-eq-ok (count_ip_failure ctx client_id) (λ _. pure invalid_credentials) w reply done in
      ground arith

module _ {W : Type 0} (ctx : AccountContext W) (tables : W → AuthTables)
    (laws : IsPool ctx.auth.pool tables) (quiet : LeavesTables ctx tables) where
  -- The password was checked against the account's hash at a moment when the account was not locked.
  abbrev pub IsVerified : Account → Text → Type 0
  IsVerified a password =
      (v : W) × (is_locked a.locked_until (ctx.auth.now_ms v) ≡ false)
      × ((ctx.verify a.password_hash password v).0 ≡ ok true)

  login_account-IsVerified :
      (client_id password : Text) (a : Account) (w : W) (user : User) (tokens : TokenPair)
      → (login_account ctx client_id password a w).0 ≡ ok (logged_in user tokens)
      → (user ≡ user_of a) × IsVerified a password
  login_account-IsVerified client_id password a w user tokens done =
      elim (Bool-cases (is_locked a.locked_until (ctx.auth.now_ms w))) [
        | inl locked ↦ absurd (ground arith)
        | inr unlocked ↦
            let rest : ((ctx.verify a.password_hash password >>= login_verified ctx client_id a)
                  w).0
                ≡ ok (logged_in user tokens) =
              ground arith in
            let (matches, checked, more) =
              bind-eq-ok (ctx.verify a.password_hash password) (login_verified ctx client_id a) w
                (logged_in user tokens) rest in
            verified (ctx.verify a.password_hash password w).1 matches more unlocked checked
      ]
    where
      verified :
          (w1 : W) (matches : Bool)
          → (login_verified ctx client_id a matches w1).0 ≡ ok (logged_in user tokens)
          → is_locked a.locked_until (ctx.auth.now_ms w) ≡ false
          → (ctx.verify a.password_hash password w).0 ≡ ok matches
          → (user ≡ user_of a) × IsVerified a password
      verified w1 true more unlocked checked =
          let (made, e) = succeed-logged_in ctx a w1 (logged_in user tokens) more in
          (ground arith, (w, unlocked, checked))
      verified w1 false more unlocked checked =
          let e = fail-invalid ctx client_id a w1 (logged_in user tokens) more in
          absurd (ground arith)

  login_found-IsVerified :
      (client_id password : Text) (o : Option Account) (w : W) (user : User) (tokens : TokenPair)
      → (login_found ctx client_id password o w).0 ≡ ok (logged_in user tokens)
      → (a : Account) × (o ≡ some a) × (user ≡ user_of a) × IsVerified a password
  login_found-IsVerified client_id password none w user tokens done =
      let e = unknown-invalid ctx client_id password w (logged_in user tokens) done in
      absurd (ground arith)
  login_found-IsVerified client_id password (some a) w user tokens done =
      let (same, verified) = login_account-IsVerified client_id password a w user tokens done in
      (a, refl, same, verified)

  -- Whoever is logged in is the user of an account that stands in the table under the email, in lower
  -- case, and the password was checked against its hash when the account was not locked.
  pub login-IsVerified :
      (client_id : Text) (c : Credentials) (w : W) (user : User) (tokens : TokenPair)
      → (login ctx client_id c w).0 ≡ ok (logged_in user tokens)
      → (a : Account) × (find_email (to_lower c.email) (tables w).users ≡ some a)
        × (user ≡ user_of a)
        × IsVerified a c.password
  unfolding login select_account
  login-IsVerified client_id c w user tokens done =
      let reply = logged_in user tokens in
      let (stored, got, rest) =
        bind-eq-ok (await (ctx.redis.get (ip_key ctx client_id))) (login_admitted ctx client_id c) w
          reply done in
      let w1 = (ctx.redis.get (ip_key ctx client_id) w).1 in
      elim (Bool-cases (exceeds (failures_of stored) ctx.auth.config.failed_login_ip_limit)) [
        | inl many ↦ absurd (ground arith)
        | inr few ↦
            let asked : ((ctx.auth.pool.query (select_account c.email)
                    >>= login_found ctx client_id c.password)
                  w1).0
                ≡ ok reply =
              ground arith in
            let (o, read, more) =
              bind-eq-ok (ctx.auth.pool.query (select_account c.email))
                (login_found ctx client_id c.password) w1 reply asked in
            let (a, there, same, verified) =
              login_found-IsVerified client_id c.password o
                (ctx.auth.pool.query (select_account c.email) w1).1 user tokens more in
            let q = laws.query_ok (select_account c.email) w1 o read in
            let k = quiet.get_keeps (ip_key ctx client_id) w in (a, ground arith, same, verified)
      ]
