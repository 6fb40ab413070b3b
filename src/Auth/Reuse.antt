-- ===== src/Auth/Reuse.antt =====
-- packages/api-service/src/routes/auth.routes.ts: a refresh token that is used again.
use backend_architecture.Prelude.{
  ◌<◌, ◌≡◌, refl, true, not, ◌&&◌, Option, some, List, [], ◌∷◌, Text, text_eq, text_eq_iff, ok,
  arith, All,
}
use backend_architecture.Services.Postgres.{IsPool}
use backend_architecture.Auth.{
  Account, RefreshToken, AuthTables, find_user, find_token, select_token, revoke_where, revoke_user,
  AuthContext, refresh_token_reused, refresh,
}

-- No token of the user can be used any more.
abbrev pub IsSignedOut : Text → List RefreshToken → Type 0
IsSignedOut user_id tokens =
    All (λ (token : RefreshToken). token.user_id ≡ user_id → token.is_revoked ≡ true) tokens

revoke_user-IsSignedOut :
    (user_id : Text) (tokens : List RefreshToken)
    → IsSignedOut user_id
        (revoke_where (λ token. text_eq token.user_id user_id && not token.is_revoked) tokens)
revoke_user-IsSignedOut user_id [] = tt
revoke_user-IsSignedOut user_id (token ∷ tokens) = (
  (λ e. ground (arith, text_eq_iff token.user_id user_id)),
  revoke_user-IsSignedOut user_id tokens,
)

module _ {W : Type 0} (ctx : AuthContext W) (tables : W → AuthTables)
    (laws : IsPool ctx.pool tables) where
  -- When the token is there, not expired, and was revoked before, and both statements reach the
  -- database, the reply says that it was reused, and all tokens of its user are revoked.
  pub refresh-IsSignedOut :
      (refresh_token : Text) (token : RefreshToken) (user : Account) (w : W)
      → find_token (ctx.hash_token refresh_token) (tables w).refresh_tokens ≡ some token
      → find_user token.user_id (tables w).users ≡ some user
      → token.is_revoked ≡ true
      → ctx.now_ms (ctx.pool.query (select_token (ctx.hash_token refresh_token)) w).1
        < token.expires_at
      → (o : Option (RefreshToken × Text))
      → (ctx.pool.query (select_token (ctx.hash_token refresh_token)) w).0 ≡ ok o
      → (ctx.pool.query
          (revoke_user token.user_id)
          (ctx.pool.query (select_token (ctx.hash_token refresh_token)) w).1).0
        ≡ ok tt
      → ((refresh ctx refresh_token w).0 ≡ ok refresh_token_reused)
        × IsSignedOut token.user_id (tables (refresh ctx refresh_token w).1).refresh_tokens
  unfolding refresh select_token revoke_user
  refresh-IsSignedOut refresh_token token user w found known revoked live o read done =
      let q = select_token (ctx.hash_token refresh_token) in
      let w1 = (ctx.pool.query q w).1 in
      let w2 = (ctx.pool.query (revoke_user token.user_id) w1).1 in
      let seen = laws.query_ok q w o read in
      let gone = laws.query_ok (revoke_user token.user_id) w1 tt done in
      let out = revoke_user-IsSignedOut token.user_id (tables w1).refresh_tokens in
      let e : refresh ctx refresh_token w ≡ (ok refresh_token_reused, w2) = ground arith in
      let t : (tables w2).refresh_tokens
          ≡ revoke_where (λ t. text_eq t.user_id token.user_id && not t.is_revoked)
              (tables w1).refresh_tokens =
        ground arith in
      rw e (refl, rw t out)
