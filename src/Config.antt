-- ===== src/Config.antt =====
-- packages/api-service/src/config.ts, and the context of packages/api-service/src/types.ts.
use backend_architecture.Prelude.{
  Bool, true, List, [], ◌∷◌, Option, none, some, Text, codes, to_lower, trim, text_eq, Result, ok,
  err, if◌then◌else◌, ◌==◌, ◌++◌,
}
use backend_architecture.Prelude.Decimal.{Number}
use backend_architecture.Shared.Env.{Env, required_env, optional_int_env, optional_bool_env}

-- `N` is the type of the numeric settings: `Number` as they are read, and ℕ where the service uses
-- them, since none of them is meant to be negative.
pub record ApiConfig (N : Type 0) : Type 0 where
  pub port : N
  pub database_url : Text
  pub redis_url : Text
  pub jwt_access_secret : Text
  pub jwt_refresh_secret : Text
  pub access_token_ttl_seconds : N
  pub refresh_token_ttl_seconds : N
  pub cache_enabled : Bool
  pub cache_ttl_seconds : N
  pub cache_timeout_ms : N
  pub cache_list_count_ttl_seconds : N
  pub rate_limit_requests : N
  pub rate_limit_window_seconds : N
  pub failed_login_ip_limit : N
  pub failed_login_ip_window_seconds : N
  pub failed_login_account_limit : N
  pub failed_login_account_window_seconds : N
  pub account_lock_seconds : N
  pub shutdown_drain_ms : N
  pub allow_load_test_client_identity : Bool
  pub load_test_client_id_header : Text
  pub cors_allowed_origins : List Text
  pub db_pool_max : N
  pub db_statement_timeout_ms : N
  pub db_idle_in_transaction_timeout_ms : N
  pub db_connection_timeout_ms : N

infixl 5 ◌>>=◌
abbrev ◌>>=◌ : {A B : Type 0} → Result A → (A → Result B) → Result B
ok a >>= f = f a
err e >>= f = err e

abbrev or_default : Option Text → Text → Text
or_default none d = d
or_default (some s) d = s

-- `split(",")`
split_comma : Text → Text → List Text
split_comma [] part = part ∷ []
split_comma (c ∷ s) [] = if c == b',' then [] ∷ split_comma s [] else split_comma s (c ∷ [])
split_comma (c ∷ s) (d ∷ p) =
    if c == b',' then (d ∷ p) ∷ split_comma s [] else split_comma s ((d ∷ p) ++ c ∷ [])

-- `.map((origin) => origin.trim()).filter(Boolean)`
trimmed : List Text → List Text
trimmed [] = []
trimmed (x ∷ xs) = if text_eq (trim x) [] then trimmed xs else trim x ∷ trimmed xs

unfoldable pub load_config : Env → Result (ApiConfig Number)
unfolding split_comma trimmed
load_config env = do
  port ← optional_int_env env (codes "API_PORT") 3000
  database_url ← required_env env (codes "DATABASE_URL")
  redis_url ← required_env env (codes "REDIS_URL")
  jwt_access_secret ← required_env env (codes "JWT_ACCESS_SECRET")
  jwt_refresh_secret ← required_env env (codes "JWT_REFRESH_SECRET")
  access_ttl ← optional_int_env env (codes "ACCESS_TOKEN_TTL_SECONDS") 900
  refresh_ttl ← optional_int_env env (codes "REFRESH_TOKEN_TTL_SECONDS") 604800
  cache_ttl ← optional_int_env env (codes "CACHE_TTL_SECONDS") 60
  cache_timeout ← optional_int_env env (codes "CACHE_TIMEOUT_MS") 200
  count_ttl ← optional_int_env env (codes "CACHE_LIST_COUNT_TTL_SECONDS") 300
  rate_requests ← optional_int_env env (codes "RATE_LIMIT_REQUESTS") 100
  rate_window ← optional_int_env env (codes "RATE_LIMIT_WINDOW_SECONDS") 60
  ip_limit ← optional_int_env env (codes "AUTH_FAILED_LOGIN_IP_LIMIT") 10
  ip_window ← optional_int_env env (codes "AUTH_FAILED_LOGIN_IP_WINDOW_SECONDS") 60
  account_limit ← optional_int_env env (codes "AUTH_FAILED_LOGIN_ACCOUNT_LIMIT") 5
  account_window ← optional_int_env env (codes "AUTH_FAILED_LOGIN_ACCOUNT_WINDOW_SECONDS") 900
  lock_seconds ← optional_int_env env (codes "AUTH_ACCOUNT_LOCK_SECONDS") 900
  drain_ms ← optional_int_env env (codes "SHUTDOWN_DRAIN_MS") 30000
  pool_max ← optional_int_env env (codes "DB_POOL_MAX") 20
  statement_ms ← optional_int_env env (codes "DB_STATEMENT_TIMEOUT_MS") 5000
  idle_ms ← optional_int_env env (codes "DB_IDLE_IN_TRANSACTION_TIMEOUT_MS") 10000
  connection_ms ← optional_int_env env (codes "DB_CONNECTION_TIMEOUT_MS") 5000
  ok (record {
    port = port;
    database_url = database_url;
    redis_url = redis_url;
    jwt_access_secret = jwt_access_secret;
    jwt_refresh_secret = jwt_refresh_secret;
    access_token_ttl_seconds = access_ttl;
    refresh_token_ttl_seconds = refresh_ttl;
    cache_enabled = optional_bool_env env (codes "CACHE_ENABLED") true;
    cache_ttl_seconds = cache_ttl;
    cache_timeout_ms = cache_timeout;
    cache_list_count_ttl_seconds = count_ttl;
    rate_limit_requests = rate_requests;
    rate_limit_window_seconds = rate_window;
    failed_login_ip_limit = ip_limit;
    failed_login_ip_window_seconds = ip_window;
    failed_login_account_limit = account_limit;
    failed_login_account_window_seconds = account_window;
    account_lock_seconds = lock_seconds;
    shutdown_drain_ms = drain_ms;
    allow_load_test_client_identity =
        optional_bool_env env (codes "ALLOW_LOAD_TEST_CLIENT_IDENTITY") true;
    load_test_client_id_header =
        to_lower
          (or_default (env (codes "LOAD_TEST_CLIENT_ID_HEADER")) (codes "x-load-test-client-id"));
    cors_allowed_origins =
        trimmed (split_comma (or_default (env (codes "CORS_ALLOWED_ORIGINS")) []) []);
    db_pool_max = pool_max;
    db_statement_timeout_ms = statement_ms;
    db_idle_in_transaction_timeout_ms = idle_ms;
    db_connection_timeout_ms = connection_ms;
  })
