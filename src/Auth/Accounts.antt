-- ===== src/Auth/Accounts.antt =====
-- packages/api-service/src/routes/auth.routes.ts: registration, login and logout, and
-- packages/api-service/src/schemas/auth.schemas.ts.
pub mod Quiet
pub mod Login
pub mod Lockout
pub mod Race
pub mod SignUp
pub mod Logout
use backend_architecture.Prelude.{
  ℕ, zero, suc, ◌+◌, ◌-◌, ◌*◌, ◌/◌, ◌%◌, ◌^◌, ◌≤◌, ◌<◌, ◌≡◌, ◌≢◌, ◌↔◌, refl, sym, ap, ◌∙◌, ◌⊎◌, inl,
  inr, Bool, true, false, not, ◌&&◌, ◌||◌, Option, none, some, List, [], ◌∷◌, ◌++◌, map, Text,
  codes, text_eq, text_eq_iff, text_eq_refl, to_lower, trim, starts_with, before, leb, ltb, ◌==◌,
  if◌then◌else◌, length, take, take-append, drop-append, length-append, &&-eq-true, drop, get_elem?,
  all, All, join, Exception, Result, ok, err, Action, pure, throw, ◌>>=◌, ◌>>◌, try_catch, modify,
  Pending, await, arith, Bool-cases, Option-cases, Result-cases, after_bind, after_try, Post,
  bind-eq-ok, bind-Post, try-Post, Post-intro, Post-weaken, Post-ok, Post-err, Post-always, min,
  max,
}
use backend_architecture.Prelude.Decimal.{Number, nan, whole, negative, parse_int}
use backend_architecture.Services.Postgres.{Statement, Pool}
use backend_architecture.Services.Redis.{Redis}
use backend_architecture.Auth.{
  User, Account, RefreshToken, AuthTables, AuthContext, TokenPair, create_tokens, revoke_where,
}

-- `\s`
abbrev is_white : ℕ → Bool
is_white c =
    (c == 32)
    || ((leb 9 c && leb c 13)
        || ((c == 160)
            || ((c == 5760)
                || ((leb 8192 c && leb c 8202)
                    || ((c == 8232)
                        || ((c == 8233)
                            || ((c == 8239)
                                || ((c == 8287) || ((c == 12288) || (c == 65279))))))))))

-- `[^\s@]`
abbrev pub is_word : ℕ → Bool
is_word c = not (is_white c || (c == b'@'))

-- The part after the first `@`, and whether there is one.
abbrev pub after_at : Text → Option Text
after_at [] = none
after_at (c ∷ s) = let rest = after_at s in if c == b'@' then some s else rest

-- Whether a dot stands in the text with something after it.
abbrev has_inner_dot : Text → Bool
has_inner_dot [] = false
has_inner_dot (c ∷ []) = false
has_inner_dot (c ∷ d ∷ s) = (c == b'.') || has_inner_dot (d ∷ s)

-- `[^\s@]+\.[^\s@]+`
abbrev is_domain : Text → Bool
is_domain [] = false
is_domain (c ∷ s) = all is_word (c ∷ s) && has_inner_dot s

abbrev pub has_domain : Option Text → Bool
has_domain none = false
has_domain (some domain) = is_domain domain

-- `/^[^\s@]+@[^\s@]+\.[^\s@]+$/`
unfoldable pub email_schema : Text → Bool
email_schema s =
    let local = before b'@' s in
    ltb 0 (length local) && (all is_word local && has_domain (after_at s))

-- `z.string().min(12)`
unfoldable pub password_schema : Text → Bool
password_schema password = leb 12 (length password)

pub record Credentials : Type 0 where
  pub email : Text
  pub password : Text

unfoldable pub register_schema : Credentials → Bool
register_schema c = email_schema c.email && password_schema c.password

abbrev pub find_email : Text → List Account → Option Account
find_email email [] = none
find_email email (a ∷ accounts) =
    if text_eq a.email email then some a else find_email email accounts

-- `SELECT … FROM users WHERE email = lower($1)`
unfoldable pub select_account : Text → Statement AuthTables (Option Account)
select_account email t = ok (find_email (to_lower email) t.users, t)

abbrev pub has_account : Text → Text → List Account → Bool
has_account id email [] = false
has_account id email (a ∷ accounts) =
    text_eq a.id id || (text_eq a.email email || has_account id email accounts)

abbrev pub new_account : Text → Text → Text → Account
new_account id email password_hash = record {
  id = id;
  email = to_lower email;
  password_hash = password_hash;
  locked_until = none;
  failed_login_count = 0;
}

-- `INSERT INTO users … VALUES ($1, lower($2), $3) RETURNING id, email`; both must be new.
unfoldable pub insert_account : Text → Text → Text → Statement AuthTables User
insert_account id email password_hash t =
    if has_account id (to_lower email) t.users
    then err (record { code = some (codes "23505"); message = codes "duplicate key value" })
    else ok (
      record { id = id; email = to_lower email },
      record t { users = new_account id email password_hash ∷ t.users },
    )

abbrev pub set_failures : Text → ℕ → Option ℕ → List Account → List Account
set_failures id count locked_until [] = []
set_failures id count locked_until (a ∷ accounts) =
    (if text_eq a.id id
      then record a { failed_login_count = count; locked_until = locked_until }
      else a)
    ∷ set_failures id count locked_until accounts

-- `UPDATE users SET failed_login_count = $2, locked_until = $3, updated_at = now() WHERE id = $1`, and
-- with 0 and NULL the statement of a successful login
unfoldable pub update_failures : Text → ℕ → Option ℕ → Statement AuthTables (Unit {0})
update_failures id count locked_until t =
    ok (tt, record t { users = set_failures id count locked_until t.users })

-- `UPDATE refresh_tokens SET revoked_at = now() WHERE token_hash = $1`
unfoldable pub revoke_hash : Text → Statement AuthTables (Unit {0})
revoke_hash hash t = ok (
  tt,
  record t {
    refresh_tokens = revoke_where (λ token. text_eq token.token_hash hash) t.refresh_tokens;
  },
)

-- What these routes are given besides: Redis and argon2.
pub record AccountContext (W : Type 0) : Type 1 where
  pub auth : AuthContext W
  pub redis : Redis W
  pub hash : Text → Action W Text
  pub verify : Text → Text → Action W Bool

pub data RegisterReply : Type 0 where
  registered : User → TokenPair → RegisterReply
  -- status 409
  email_already_exists : RegisterReply

pub data LoginReply : Type 0 where
  -- status 429, 423 and 401
  auth_rate_limited account_locked invalid_credentials : LoginReply
  logged_in : User → TokenPair → LoginReply

abbrev pub user_of : Account → User
user_of a = record { id = a.id; email = a.email }

-- `lockedUntil?.getTime() > Date.now()`
abbrev pub is_locked : Option ℕ → ℕ → Bool
is_locked none now = false
is_locked (some t) now = ltb now t

-- `Number.parseInt(stored ?? "0", 10)`
abbrev failures_of : Option Text → Number
failures_of none = whole 0
failures_of (some s) = parse_int s

-- `failures > limit`, false for NaN
abbrev exceeds : Number → ℕ → Bool
exceeds nan limit = false
exceeds (whole n) limit = ltb limit n
exceeds (negative n) limit = false

module _ {W : Type 0} (ctx : AccountContext W) where
  abbrev is_duplicate : Exception → Bool
  is_duplicate e = elim e.code [ none ↦ false | some c ↦ text_eq c (codes "23505") ]

  abbrev fresh_uuid : Action W Text
  fresh_uuid w = let (id, w') = ctx.auth.random_uuid w in (ok id, w')

  -- The `try` block of POST /v1/auth/register.
  abbrev pub register_account : Credentials → Text → Action W RegisterReply
  register_account c password_hash = fresh_uuid >>= λ id.
      ctx.auth.pool.query (insert_account id c.email password_hash) >>= λ user.
      create_tokens ctx.auth user >>= λ tokens. pure (registered user tokens)

  -- POST /v1/auth/register, after the validation of its body.
  unfoldable pub register : Credentials → Action W RegisterReply
  register c = ctx.hash c.password >>= λ password_hash.
      try_catch (register_account c password_hash)
        (λ error. if is_duplicate error then pure email_already_exists else throw error)

  abbrev pub ip_key : Text → Text
  ip_key client_id = codes "auth:failed-ip:" ++ client_id

  unfoldable pub count_ip_failure : Text → Action W (Unit {0})
  count_ip_failure client_id = await (ctx.redis.incr (ip_key client_id)) >>= λ failed_count.
      if failed_count == 1
      then await
          (ctx.redis.expire (ip_key client_id) ctx.auth.config.failed_login_ip_window_seconds)
      else pure tt

  abbrev pub lock_time : ℕ → ℕ → Option ℕ
  lock_time count now =
      if leb ctx.auth.config.failed_login_account_limit count
      then some (now + ctx.auth.config.account_lock_seconds * 1000)
      else none

  -- `failed_login_count` counted up from what was read.
  unfoldable pub note_failure : Account → Action W (Unit {0})
  note_failure a w =
      ctx.auth.pool.query
        (update_failures a.id (a.failed_login_count + 1)
          (lock_time (a.failed_login_count + 1) (ctx.auth.now_ms w)))
        w

  abbrev pub succeed : Account → Action W LoginReply
  succeed a = ctx.auth.pool.query (update_failures a.id 0 none) >>= λ _.
      create_tokens ctx.auth (user_of a) >>= λ tokens. pure (logged_in (user_of a) tokens)

  abbrev pub fail : Text → Account → Action W LoginReply
  fail client_id a =
      count_ip_failure client_id >>= λ _. note_failure a >>= λ _. pure invalid_credentials

  abbrev pub login_verified : Text → Account → Bool → Action W LoginReply
  login_verified client_id a matches = if matches then succeed a else fail client_id a

  -- The account is there.
  abbrev pub login_account : Text → Text → Account → Action W LoginReply
  login_account client_id password a w =
      if is_locked a.locked_until (ctx.auth.now_ms w)
      then (ok account_locked, w)
      else (ctx.verify a.password_hash password >>= login_verified client_id a) w

  abbrev pub login_found : Text → Text → Option Account → Action W LoginReply
  login_found client_id password none = count_ip_failure client_id >>= λ _. pure invalid_credentials
  login_found client_id password (some a) = login_account client_id password a

  abbrev pub login_admitted : Text → Credentials → Option Text → Action W LoginReply
  login_admitted client_id c stored =
      if exceeds (failures_of stored) ctx.auth.config.failed_login_ip_limit
      then pure auth_rate_limited
      else ctx.auth.pool.query (select_account c.email) >>= login_found client_id c.password

  -- POST /v1/auth/login, after the validation of its body.
  unfoldable pub login : Text → Credentials → Action W LoginReply
  login client_id c = await (ctx.redis.get (ip_key client_id)) >>= login_admitted client_id c

  -- POST /v1/auth/logout, after the validation of its body: status 204
  unfoldable pub logout : Text → Action W (Unit {0})
  logout refresh_token = ctx.auth.pool.query (revoke_hash (ctx.auth.hash_token refresh_token))
