-- ===== src/Tests/Fixtures.antt =====
-- A configuration, and a context over the in-memory Redis.
use backend_architecture.Prelude.{ℕ, true, some, none, [], Text, codes, Exception, err}
use backend_architecture.Services.Redis.{Redis}
use backend_architecture.Services.Json.{Json}
use backend_architecture.Services.Memory.{Store, memory}
use backend_architecture.Config.{ApiConfig}
use backend_architecture.Cache.Primitives.{CacheContext}

abbrev pub config : ApiConfig ℕ
config = record {
  port = 3000;
  database_url = codes "postgres://db";
  redis_url = codes "redis://cache";
  jwt_access_secret = codes "a";
  jwt_refresh_secret = codes "r";
  access_token_ttl_seconds = 900;
  refresh_token_ttl_seconds = 604800;
  cache_enabled = true;
  cache_ttl_seconds = 60;
  cache_timeout_ms = 200;
  cache_list_count_ttl_seconds = 300;
  rate_limit_requests = 2;
  rate_limit_window_seconds = 60;
  failed_login_ip_limit = 10;
  failed_login_ip_window_seconds = 60;
  failed_login_account_limit = 5;
  failed_login_account_window_seconds = 900;
  account_lock_seconds = 900;
  shutdown_drain_ms = 30000;
  allow_load_test_client_identity = true;
  load_test_client_id_header = codes "x-load-test-client-id";
  cors_allowed_origins = [];
  db_pool_max = 20;
  db_statement_timeout_ms = 5000;
  db_idle_in_transaction_timeout_ms = 10000;
  db_connection_timeout_ms = 5000;
}

abbrev pub empty : Store
empty k = none

abbrev pub lost : Exception
lost = record { code = none; message = codes "connection lost" }

-- The in-memory Redis, whose reads fail.
abbrev pub unreadable : Redis Store
unreadable = record memory { get = λ k w. (record { result = err lost; delay_ms = 1 }, w) }

abbrev pub context : Redis Store → CacheContext Store
context redis = record {
  config = config;
  redis = redis;
  warn_once_per_minute = λ key message error w. w;
}

-- Texts as JSON values, written as they are.
abbrev pub plain : Json Text
plain = record { stringify = λ s. s; parse = λ s. some s }
