-- ===== src/Auth.antt =====
-- packages/api-service/src/routes/auth.routes.ts: the refresh tokens and their route.
pub mod Reuse
pub mod Rotation
pub mod Accounts
pub mod Bearer
use backend_architecture.Prelude.{
  ℕ, ◌+◌, ◌*◌, Bool, true, false, not, ◌&&◌, Option, none, some, List, [], ◌∷◌, Text, codes,
  text_eq, leb, if◌then◌else◌, Exception, ok, err, Action, pure, ◌>>=◌,
}
use backend_architecture.Services.Postgres.{Statement, Pool}
use backend_architecture.Config.{ApiConfig}

pub record User : Type 0 where
  pub id : Text
  pub email : Text

-- A row of `users`; times are in milliseconds.
pub record Account : Type 0 where
  pub id : Text
  pub email : Text
  pub password_hash : Text
  pub locked_until : Option ℕ
  pub failed_login_count : ℕ

-- A row of `refresh_tokens`; times are in milliseconds.
pub record RefreshToken : Type 0 where
  pub id : Text
  pub user_id : Text
  pub token_hash : Text
  pub is_revoked : Bool
  pub expires_at : ℕ

pub record AuthTables : Type 0 where
  pub users : List Account
  pub refresh_tokens : List RefreshToken

abbrev pub find_user : Text → List Account → Option Account
find_user id [] = none
find_user id (user ∷ users) = if text_eq user.id id then some user else find_user id users

abbrev pub find_token : Text → List RefreshToken → Option RefreshToken
find_token hash [] = none
find_token hash (token ∷ tokens) =
    if text_eq token.token_hash hash then some token else find_token hash tokens

abbrev pub has_token : Text → Text → List RefreshToken → Bool
has_token id hash [] = false
has_token id hash (token ∷ tokens) =
    if text_eq token.id id
    then true
    else if text_eq token.token_hash hash
    then true
    else has_token id hash tokens

abbrev pub joined : List Account → Option RefreshToken → Option (RefreshToken × Text)
joined users none = none
joined users (some token) = elim (find_user token.user_id users) [
  | none ↦ none
  | some user ↦ some (token, user.email)
]

-- `SELECT … FROM refresh_tokens rt JOIN users u ON u.id = rt.user_id WHERE rt.token_hash = $1`
unfoldable pub select_token : Text → Statement AuthTables (Option (RefreshToken × Text))
select_token hash t = ok (joined t.users (find_token hash t.refresh_tokens), t)

-- `INSERT INTO refresh_tokens …`; the identifier and the hash must be new.
unfoldable pub insert_token : Text → Text → Text → ℕ → Statement AuthTables (Unit {0})
insert_token id user_id hash expires_at t =
    if has_token id hash t.refresh_tokens
    then err (record { code = some (codes "23505"); message = codes "duplicate key value" })
    else ok (
      tt,
      record t {
        refresh_tokens =
            record {
              id = id;
              user_id = user_id;
              token_hash = hash;
              is_revoked = false;
              expires_at = expires_at;
            }
            ∷ t.refresh_tokens;
      },
    )

abbrev pub revoke_where : (RefreshToken → Bool) → List RefreshToken → List RefreshToken
revoke_where test [] = []
revoke_where test (token ∷ tokens) =
    (if test token then record token { is_revoked = true } else token) ∷ revoke_where test tokens

-- `UPDATE refresh_tokens SET revoked_at = now() WHERE user_id = $1 AND revoked_at IS NULL`
unfoldable pub revoke_user : Text → Statement AuthTables (Unit {0})
revoke_user user_id t = ok (
  tt,
  record t {
    refresh_tokens =
        revoke_where (λ token. text_eq token.user_id user_id && not token.is_revoked)
          t.refresh_tokens;
  },
)

-- `UPDATE refresh_tokens SET revoked_at = now() WHERE id = $1`
unfoldable pub revoke_token : Text → Statement AuthTables (Unit {0})
revoke_token id t =
    ok (
      tt,
      record t { refresh_tokens = revoke_where (λ token. text_eq token.id id) t.refresh_tokens },
    )

-- What the routes are given: `sign` is `jwt.sign` with the configured secret and lifetime.
pub record AuthContext (W : Type 0) : Type 1 where
  pub config : ApiConfig ℕ
  pub pool : Pool W AuthTables
  pub sign : User → W → Text
  pub hash_token : Text → Text
  pub new_refresh_token : W → Text × W
  pub random_uuid : W → Text × W
  pub now_ms : W → ℕ

pub record TokenPair : Type 0 where
  pub access_token : Text
  pub refresh_token : Text

pub data RefreshReply : Type 0 where
  -- status 401, `INVALID_REFRESH_TOKEN`
  invalid_refresh_token : RefreshReply
  -- status 401, `REFRESH_TOKEN_REUSED`
  refresh_token_reused : RefreshReply
  refreshed : TokenPair → RefreshReply

module _ {W : Type 0} (ctx : AuthContext W) where
  unfoldable pub create_tokens : User → Action W TokenPair
  create_tokens user w =
      let access_token = ctx.sign user w in
      let (refresh_token, w1) = ctx.new_refresh_token w in
      let (id, w2) = ctx.random_uuid w1 in
      let expires_at = ctx.now_ms w2 + ctx.config.refresh_token_ttl_seconds * 1000 in
      (ctx.pool.query (insert_token id user.id (ctx.hash_token refresh_token) expires_at) >>= λ _.
      pure (record { access_token = access_token; refresh_token = refresh_token }))
        w2

  abbrev pub refresh_found : Option (RefreshToken × Text) → Action W RefreshReply
  refresh_found none w = (ok invalid_refresh_token, w)
  refresh_found (some (token, email)) w =
      if leb token.expires_at (ctx.now_ms w)
      then (ok invalid_refresh_token, w)
      else if token.is_revoked
      then (ctx.pool.query (revoke_user token.user_id) >>= λ _. pure refresh_token_reused) w
      else (ctx.pool.query (revoke_token token.id) >>= λ _.
            create_tokens (record { id = token.user_id; email = email }) >>= λ tokens.
            pure (refreshed tokens))
          w

  -- POST /v1/auth/refresh, after the validation of its body.
  unfoldable pub refresh : Text → Action W RefreshReply
  refresh refresh_token =
      ctx.pool.query (select_token (ctx.hash_token refresh_token)) >>= refresh_found
