-- ===== src/Auth/Accounts/Quiet.antt =====
-- packages/api-service/src/routes/auth.routes.ts: what leaves the tables alone.
use backend_architecture.Prelude.{ℕ, ◌+◌, ◌*◌, ◌≡◌, ◌∙◌, inl, inr, Text, arith, Result-cases}
use backend_architecture.Services.Postgres.{IsPool}
use backend_architecture.Auth.{User, AuthTables, create_tokens, insert_token}
use backend_architecture.Auth.Accounts.{AccountContext, count_ip_failure, ip_key}

-- Redis, argon2 and the making of random values leave the tables alone.
pub record LeavesTables {W : Type 0} (ctx : AccountContext W) (tables : W → AuthTables)
    : Type 0 where
  pub get_keeps : (k : Text) (w : W) → tables (ctx.redis.get k w).1 ≡ tables w
  pub incr_keeps : (k : Text) (w : W) → tables (ctx.redis.incr k w).1 ≡ tables w
  pub expire_keeps : (k : Text) (n : ℕ) (w : W) → tables (ctx.redis.expire k n w).1 ≡ tables w
  pub hash_keeps : (p : Text) (w : W) → tables (ctx.hash p w).1 ≡ tables w
  pub verify_keeps : (h p : Text) (w : W) → tables (ctx.verify h p w).1 ≡ tables w
  pub uuid_keeps : (w : W) → tables (ctx.auth.random_uuid w).1 ≡ tables w
  pub token_keeps : (w : W) → tables (ctx.auth.new_refresh_token w).1 ≡ tables w

module _ {W : Type 0} (ctx : AccountContext W) (tables : W → AuthTables)
    (laws : IsPool ctx.auth.pool tables) (quiet : LeavesTables ctx tables) where
  pub count_ip_failure-tables :
      (client_id : Text) (w : W) → tables (count_ip_failure ctx client_id w).1 ≡ tables w
  unfolding count_ip_failure
  count_ip_failure-tables client_id w =
      let k = ip_key ctx client_id in
      let w1 = (ctx.redis.incr k w).1 in
      let a = quiet.incr_keeps k w in
      let b = quiet.expire_keeps k ctx.auth.config.failed_login_ip_window_seconds w1 in
      elim (Result-cases (ctx.redis.incr k w).0.result) [
        | inl (n, counted) ↦ ground arith
        | inr (x, failed) ↦ ground arith
      ]

  pub create_tokens-users :
      (user : User) (w : W) → (tables (create_tokens ctx.auth user w).1).users ≡ (tables w).users
  unfolding create_tokens insert_token
  create_tokens-users user w =
      let (token, w1) = ctx.auth.new_refresh_token w in
      let (id, w2) = ctx.auth.random_uuid w1 in
      let q =
        insert_token id user.id (ctx.auth.hash_token token)
          (ctx.auth.now_ms w2 + ctx.auth.config.refresh_token_ttl_seconds * 1000) in
      let kept : tables w2 ≡ tables w = quiet.uuid_keeps w1 ∙ quiet.token_keeps w in
      elim (Result-cases (ctx.auth.pool.query q w2).0) [
        | inl (_, inserted) ↦ let e = laws.query_ok q w2 tt inserted in ground arith
        | inr (x, failed) ↦ elim (laws.query_err q w2 x failed) [
          | inl same ↦ ground arith
          | inr (_, e) ↦ ground arith
        ]
      ]
