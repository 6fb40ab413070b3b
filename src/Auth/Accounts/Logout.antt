-- ===== src/Auth/Accounts/Logout.antt =====
-- packages/api-service/src/routes/auth.routes.ts: the refresh token after a logout.
use backend_architecture.Prelude.{
  ◌≡◌, ◌≢◌, refl, ap, ◌∙◌, inl, inr, true, false, Option, none, some, List, [], ◌∷◌, Text, text_eq,
  leb, ok, arith, Bool-cases, Option-cases, Result-cases, bind-eq-ok,
}
use backend_architecture.Services.Postgres.{IsPool}
use backend_architecture.Auth.{
  RefreshToken, AuthTables, TokenPair, refreshed, refresh, refresh_found, select_token, find_token,
  find_user, revoke_where, revoke_user, joined,
}
use backend_architecture.Auth.Accounts.{AccountContext, logout, revoke_hash}

-- The token of the hash, if there is one, is revoked.
abbrev pub IsGone : Text → List RefreshToken → Type 0
IsGone hash tokens =
    (token : RefreshToken) → find_token hash tokens ≡ some token → token.is_revoked ≡ true

revoke_where-IsGone :
    (hash : Text) (tokens : List RefreshToken)
    → IsGone hash (revoke_where (λ token. text_eq token.token_hash hash) tokens)
revoke_where-IsGone hash [] token found = cc
revoke_where-IsGone hash (t ∷ tokens) token found = elim (Bool-cases (text_eq t.token_hash hash)) [
  | inl here ↦ ground arith
  | inr other ↦ revoke_where-IsGone hash tokens token (ground arith)
]

module _ {W : Type 0} (ctx : AccountContext W) (tables : W → AuthTables)
    (laws : IsPool ctx.auth.pool tables) where
  -- Only a token that is there and not revoked is answered with a new pair.
  refresh_found-live :
      (o : Option (RefreshToken × Text)) (w : W) (pair : TokenPair)
      → (refresh_found ctx.auth o w).0 ≡ ok (refreshed pair)
      → (token : RefreshToken) × ((email : Text) × (o ≡ some (token, email)))
        × (token.is_revoked ≡ false)
  refresh_found-live none w pair done = absurd (ground arith)
  refresh_found-live (some (token, email)) w pair done =
      elim (Bool-cases (leb token.expires_at (ctx.auth.now_ms w))) [
        | inl late ↦ absurd (ground arith)
        | inr live ↦ elim (Bool-cases token.is_revoked) [
          | inl used ↦ elim (Result-cases (ctx.auth.pool.query (revoke_user token.user_id) w).0) [
            | inl (_, told) ↦ absurd (ground arith)
            | inr (x, failed) ↦ absurd (ground arith)
          ]
          | inr unused ↦ (token, (email, refl), unused)
        ]
      ]

  joined-found :
      (hash : Text) (t : AuthTables) (token : RefreshToken) (email : Text)
      → joined t.users (find_token hash t.refresh_tokens) ≡ some (token, email)
      → find_token hash t.refresh_tokens ≡ some token
  joined-found hash t token email h = elim (Option-cases (find_token hash t.refresh_tokens)) [
    | inl missing ↦ absurd (ground arith)
    | inr (r, there) ↦ elim (Option-cases (find_user r.user_id t.users)) [
      | inl unknown ↦ absurd (ground arith)
      | inr (u, known) ↦ ground arith
    ]
  ]

  -- After a logout that is answered, a refresh with the token that it named is not answered with a new
  -- pair, if it starts when the logout is done, on the tables that the logout left.
  pub logout-refresh :
      (refresh_token : Text) (w : W) (pair : TokenPair)
      → (logout ctx refresh_token w).0 ≡ ok tt
      → (refresh ctx.auth refresh_token (logout ctx refresh_token w).1).0 ≢ ok (refreshed pair)
  unfolding logout revoke_hash refresh select_token
  logout-refresh refresh_token w pair done again =
      let hash = ctx.auth.hash_token refresh_token in
      let w1 = (ctx.auth.pool.query (revoke_hash hash) w).1 in
      let e = laws.query_ok (revoke_hash hash) w tt done in
      let (o, read, rest) =
        bind-eq-ok (ctx.auth.pool.query (select_token hash)) (refresh_found ctx.auth) w1
          (refreshed pair) again in
      let q = laws.query_ok (select_token hash) w1 o read in
      let (token, (email, there), live) =
        refresh_found-live o (ctx.auth.pool.query (select_token hash) w1).1 pair rest in
      let found = joined-found hash (tables w1) token email (ground arith) in
      let gone : token.is_revoked ≡ true =
        let tokens : revoke_where (λ t. text_eq t.token_hash hash) (tables w).refresh_tokens
            ≡ (tables w1).refresh_tokens =
          ground arith in
        revoke_where-IsGone hash (tables w).refresh_tokens token
          (ap (find_token hash) tokens ∙ found) in
      ground arith
