-- ===== src/Auth/Accounts/SignUp.antt =====
-- packages/api-service/src/routes/auth.routes.ts: a login after the registration.
use mathlib.Core.Path.{subst}
use backend_architecture.Prelude.{
  ◌≡◌, refl, sym, ap, ◌∙◌, ◌⊎◌, inl, inr, Bool, true, Option, some, ◌∷◌, Text, text_eq_refl,
  to_lower, if◌then◌else◌, ok, pure, throw, ◌>>=◌, try_catch, await, arith, Bool-cases, Post,
  bind-Post, try-Post, Post-intro, Post-ok,
}
use backend_architecture.Services.Postgres.{IsPool}
use backend_architecture.Auth.{User, AuthTables, TokenPair, create_tokens}
use backend_architecture.Auth.Accounts.{
  AccountContext, Credentials, LoginReply, RegisterReply, registered, email_already_exists,
  auth_rate_limited, logged_in, user_of, exceeds, failures_of, find_email, select_account,
  insert_account, new_account, has_account, succeed, login_verified, login_account, login_found,
  login_admitted, login, register, register_account, ip_key, is_duplicate,
}
use backend_architecture.Auth.Accounts.Quiet.{LeavesTables, create_tokens-users}
use backend_architecture.Auth.Accounts.Login.{succeed-logged_in}

module _ {W : Type 0} (ctx : AccountContext W) (tables : W → AuthTables)
    (laws : IsPool ctx.auth.pool tables) (quiet : LeavesTables ctx tables)
    (verifies : (password hash : Text) (v w : W) (matches : Bool)
      → (ctx.hash password v).0 ≡ ok hash
      → (ctx.verify hash password w).0 ≡ ok matches
      → matches ≡ true)
    (c : Credentials) where
  -- The account of a new user stands under the email; its hash is of the password.
  abbrev pub HasSignedUp : User → W → Type 0
  HasSignedUp user w =
      (id hash : Text) × (v : W) × ((ctx.hash c.password v).0 ≡ ok hash)
      × (user ≡ user_of (new_account id c.email hash))
      × (find_email (to_lower c.email) (tables w).users ≡ some (new_account id c.email hash))

  abbrev Anyhow : W → Type 0
  Anyhow w = Unit

  abbrev Registered : RegisterReply → W → Type 0
  Registered (registered user tokens) w = HasSignedUp user w
  Registered email_already_exists w = Unit

  inserted_account :
      (id hash : Text) (user : User) (w : W)
      → (ctx.auth.pool.query (insert_account id c.email hash) w).0 ≡ ok user
      → (user ≡ user_of (new_account id c.email hash))
        × (find_email
              (to_lower c.email)
              (tables (ctx.auth.pool.query (insert_account id c.email hash) w).1).users
            ≡ some (new_account id c.email hash))
  unfolding insert_account
  inserted_account id hash user w done =
      let e = laws.query_ok (insert_account id c.email hash) w user done in
      let self = text_eq_refl (to_lower c.email) in
      elim (Bool-cases (has_account id (to_lower c.email) (tables w).users)) [
        | inl taken ↦ absurd (ground arith)
        | inr free ↦
            let users : (tables (ctx.auth.pool.query (insert_account id c.email hash) w).1).users
                ≡ new_account id c.email hash ∷ (tables w).users =
              ground arith in
            (ground arith, ap (find_email (to_lower c.email)) users ∙ rw self)
      ]

  register_account-Registered :
      (hash : Text) (v w : W)
      → (ctx.hash c.password v).0 ≡ ok hash
      → Post Anyhow Registered (register_account ctx c hash w)
  register_account-Registered hash v w hashed =
      let (id, w1) = ctx.auth.random_uuid w in
      bind-Post Anyhow (λ user w'. HasSignedUp user w') Registered
        (ctx.auth.pool.query (insert_account id c.email hash))
        (λ user. create_tokens ctx.auth user >>= λ tokens. pure (registered user tokens)) w1
        (Post-intro _ _ (ctx.auth.pool.query (insert_account id c.email hash) w1)
          (λ user done.
            let (same, there) = inserted_account id hash user w1 done in
            (id, hash, v, hashed, same, there))
          (λ x _. tt))
        (λ user w2 (id', hash', v', hashed', same, there).
          bind-Post Anyhow (λ _ w'. (tables w').users ≡ (tables w2).users) Registered
            (create_tokens ctx.auth user) (λ tokens. pure (registered user tokens)) w2
            (Post-intro _ _ (create_tokens ctx.auth user w2)
              (λ _ _. create_tokens-users ctx tables laws quiet user w2) (λ x _. tt))
            (λ tokens w3 kept.
              (id', hash', v', hashed', same, ap (find_email (to_lower c.email)) kept ∙ there)))

  register-Registered : (w : W) → Post Anyhow Registered (register ctx c w)
  unfolding register
  register-Registered w =
      bind-Post Anyhow (λ hash _. (ctx.hash c.password w).0 ≡ ok hash) Registered
        (ctx.hash c.password)
        (λ hash.
          try_catch (register_account ctx c hash)
            (λ error. if is_duplicate ctx error then pure email_already_exists else throw error))
        w (Post-intro _ _ (ctx.hash c.password w) (λ hash done. done) (λ x _. tt))
        (λ hash w1 hashed.
          try-Post Anyhow Anyhow Registered (register_account ctx c hash)
            (λ error. if is_duplicate ctx error then pure email_already_exists else throw error) w1
            (register_account-Registered hash w w1 hashed)
            (λ error w2 _. elim (Bool-cases (is_duplicate ctx error)) [
              | inl duplicate ↦ rw duplicate tt
              | inr other ↦ rw other tt
            ]))

  -- The user may log in, or is turned away because the client has failed too often.
  abbrev pub Welcome : User → LoginReply → Type 0
  Welcome user reply =
      (reply ≡ auth_rate_limited) ⊎ ((tokens : TokenPair) × (reply ≡ logged_in user tokens))

  abbrev Welcomes : User → LoginReply → W → Type 0
  Welcomes user reply w = Welcome user reply

  login_account-Welcome :
      (client_id id hash : Text) (v w : W)
      → (ctx.hash c.password v).0 ≡ ok hash
      → Post Anyhow
          (Welcomes (user_of (new_account id c.email hash)))
          (login_account ctx client_id c.password (new_account id c.email hash) w)
  login_account-Welcome client_id id hash v w hashed =
      let a = new_account id c.email hash in
      bind-Post Anyhow (λ matches _. matches ≡ true) (Welcomes (user_of a))
        (ctx.verify hash c.password) (login_verified ctx client_id a) w
        (Post-intro _ _ (ctx.verify hash c.password w)
          (λ matches checked. verifies c.password hash v w matches hashed checked) (λ x _. tt))
        (λ matches w1 right.
          subst (λ b. Post Anyhow (Welcomes (user_of a)) (login_verified ctx client_id a b w1))
            (sym right)
            (Post-intro _ _ (succeed ctx a w1)
              (λ reply done. inr (succeed-logged_in ctx a w1 reply done)) (λ x _. tt)))

  login_admitted-Welcome :
      (client_id id hash : Text) (stored : Option Text) (v w : W)
      → (ctx.hash c.password v).0 ≡ ok hash
      → find_email (to_lower c.email) (tables w).users ≡ some (new_account id c.email hash)
      → Post Anyhow
          (Welcomes (user_of (new_account id c.email hash)))
          (login_admitted ctx client_id c stored w)
  unfolding select_account
  login_admitted-Welcome client_id id hash stored v w hashed there =
      let a = new_account id c.email hash in
      elim (Bool-cases (exceeds (failures_of stored) ctx.auth.config.failed_login_ip_limit)) [
        | inl many ↦ rw many (inl refl)
        | inr few ↦ rw few (
            bind-Post Anyhow (λ o w'. o ≡ some a) (Welcomes (user_of a))
              (ctx.auth.pool.query (select_account c.email)) (login_found ctx client_id c.password)
              w
              (Post-intro _ _ (ctx.auth.pool.query (select_account c.email) w)
                (λ o done. let e = laws.query_ok (select_account c.email) w o done in ground arith)
                (λ x _. tt))
              (λ o w1 found.
                subst
                  (λ p.
                    Post Anyhow (Welcomes (user_of a)) (login_found ctx client_id c.password p w1))
                  (sym found) (login_account-Welcome client_id id hash v w1 hashed)))
      ]

  login-Welcome :
      (client_id : Text) (user : User) (w : W)
      → HasSignedUp user w
      → Post Anyhow (Welcomes user) (login ctx client_id c w)
  unfolding login
  login-Welcome client_id user w (id, hash, v, hashed, same, there) =
      subst
        (λ u.
          Post Anyhow (Welcomes u)
            ((await (ctx.redis.get (ip_key ctx client_id)) >>= login_admitted ctx client_id c) w))
        (sym same)
        (bind-Post Anyhow (λ _ w'. tables w' ≡ tables w)
          (Welcomes (user_of (new_account id c.email hash)))
          (await (ctx.redis.get (ip_key ctx client_id))) (login_admitted ctx client_id c) w
          (Post-intro _ _ (await (ctx.redis.get (ip_key ctx client_id)) w)
            (λ _ _. quiet.get_keeps (ip_key ctx client_id) w) (λ x _. tt))
          (λ stored w1 kept.
            login_admitted-Welcome client_id id hash stored v w1 hashed
              (ap (λ t. find_email (to_lower c.email) t.users) kept ∙ there)))

  -- A user who has registered and then logs in with the same email and password, from any client, is
  -- logged in as the user that the registration returned, whenever the login is answered, unless that
  -- client has failed too often. The check of a password against its own hash succeeds.
  pub register-login :
      (client_id : Text) (w : W) (user : User) (tokens : TokenPair) (reply : LoginReply)
      → (register ctx c w).0 ≡ ok (registered user tokens)
      → (login ctx client_id c (register ctx c w).1).0 ≡ ok reply
      → Welcome user reply
  register-login client_id w user tokens reply done done' =
      let w1 = (register ctx c w).1 in
      let signed_up =
        Post-ok Anyhow Registered (register ctx c w) (registered user tokens)
          (register-Registered w) done in
      Post-ok Anyhow (Welcomes user) (login ctx client_id c w1) reply
        (login-Welcome client_id user w1 signed_up) done'
