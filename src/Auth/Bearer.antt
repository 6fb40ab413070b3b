-- ===== src/Auth/Bearer.antt =====
-- packages/api-service/src/middleware/authenticate.ts: the hook before the routes of a user.
use backend_architecture.Prelude.{
  ◌+◌, ◌*◌, ◌/◌, ◌<◌, ◌≡◌, refl, inl, inr, true, Option, none, some, [], ◌∷◌, ◌++◌, Text, codes,
  starts_with, if◌then◌else◌, length, drop, Result, ok, err, arith, Result-cases,
}
use backend_architecture.Auth.{User, AuthContext, TokenPair, create_tokens, insert_token}

-- The claims of a token that `jwt.verify` accepts; `none` is a claim that is not a string.
pub record Claims : Type 0 where
  pub sub : Option Text
  pub email : Option Text

pub data Authentication : Type 0 where
  -- status 401, with one of the messages of the source
  missing_bearer_token invalid_token invalid_or_expired_token : Authentication
  authenticated : User → Authentication

abbrev bearer : Text
bearer = codes "Bearer "

abbrev claimed : Option Text → Option Text → Authentication
claimed (some id) (some email) = authenticated (record { id = id; email = email })
claimed _ _ = invalid_token

abbrev decoded : Result Claims → Authentication
decoded (ok claims) = claimed claims.sub claims.email
decoded (err e) = invalid_or_expired_token

-- `verify` is `jwt.verify` with the configured secret.
unfoldable pub authenticate : (Text → Result Claims) → Option Text → Authentication
authenticate verify none = missing_bearer_token
authenticate verify (some authorization) =
    if starts_with bearer authorization
    then decoded (verify (drop (length bearer) authorization))
    else missing_bearer_token

starts_with-append : (p s : Text) → starts_with p (p ++ s) ≡ true
starts_with-append [] s = refl
starts_with-append (c ∷ p) s = let rest = starts_with-append p s in ground arith

module _ {W : Type 0} (ctx : AuthContext W) (verify : Text → W → Result Claims)
    (accepts : (user : User) (w v : W)
      → ctx.now_ms v / 1000 < ctx.now_ms w / 1000 + ctx.config.access_token_ttl_seconds
      → verify (ctx.sign user w) v
        ≡ ok (record { sub = some user.id; email = some user.email })) where
  -- The access token that `createTokens` returns, sent after `Bearer ` before its lifetime is over,
  -- in whole seconds, authenticates the user that it was made for. A signed token is accepted for
  -- that time.
  pub create_tokens-authenticate :
      (user : User) (w v : W) (tokens : TokenPair)
      → (create_tokens ctx user w).0 ≡ ok tokens
      → ctx.now_ms v / 1000 < ctx.now_ms w / 1000 + ctx.config.access_token_ttl_seconds
      → authenticate (λ token. verify token v) (some (codes "Bearer " ++ tokens.access_token))
        ≡ authenticated user
  unfolding create_tokens authenticate
  create_tokens-authenticate user w v tokens done early =
      let (token, w1) = ctx.new_refresh_token w in
      let (id, w2) = ctx.random_uuid w1 in
      let q =
        insert_token id user.id (ctx.hash_token token)
          (ctx.now_ms w2 + ctx.config.refresh_token_ttl_seconds * 1000) in
      let e = accepts user w v early in
      let signed : tokens.access_token ≡ ctx.sign user w =
        elim (Result-cases (ctx.pool.query q w2).0) [
          | inl (_, inserted) ↦ ground arith
          | inr (x, failed) ↦ absurd (ground arith)
        ] in
      rw (signed, e)
