-- ===== src/Cache/Primitives.antt =====
-- packages/api-service/src/utils/cache.ts: the primitives, and what the three wrappers share; and
-- packages/api-service/src/utils/timeout.ts.
use backend_architecture.Prelude.{
  ℕ, Option, none, some, [], ◌∷◌, ◌++◌, Text, codes, Exception, err, Action, pure, throw, ◌>>=◌,
  ◌>>◌, modify, Pending, ltb, if◌then◌else◌,
}
use backend_architecture.Prelude.Decimal.{Number, nan, whole, negative, parse_int, decimal}
use backend_architecture.Services.Redis.{Redis}
use backend_architecture.Services.Json.{Json}
use backend_architecture.Config.{ApiConfig}
use backend_architecture.Cache.Key.{namespace_version_key}

-- The part of `ApiContext` that the cache uses. `warn_once_per_minute key message error` may log.
pub record CacheContext (W : Type 0) : Type 0 where
  pub config : ApiConfig ℕ
  pub redis : Redis W
  pub warn_once_per_minute : Text → Text → Exception → W → W

abbrev pub timeout_error : ℕ → Exception
timeout_error ms = record {
  code = none;
  message = codes "Operation timed out after " ++ (decimal ms ++ codes " ms");
}

-- The promise wins the race if it settles before the timer fires. The command has been sent: what it
-- does to the world is done also when the timer wins.
unfoldable pub with_timeout : {W A : Type 0} → (W → Pending A × W) → ℕ → Action W A
with_timeout op ms w =
    let (p, w') = op w in (if ltb p.delay_ms ms then p.result else err (timeout_error ms), w')

-- `JSON.parse` in a function that may throw
abbrev pub parse_or_throw : {W T : Type 0} → Json T → Text → Action W T
parse_or_throw json text = elim (json.parse text) [
  | none ↦ throw (record { code = none; message = codes "Unexpected token in JSON" })
  | some value ↦ pure value
]

-- `raw` to a version: 0 where the key is missing, or holds no number that is 0 or more
abbrev version_of_number : Number → ℕ
version_of_number nan = 0
version_of_number (whole n) = n
version_of_number (negative n) = 0

abbrev pub version_of : Option Text → ℕ
version_of none = 0
version_of (some []) = 0
version_of (some (c ∷ s)) = version_of_number (parse_int (c ∷ s))

abbrev pub x_cache : Text
x_cache = codes "X-Cache"

-- What the lookup of a wrapper found: `bypass` after an error, where nothing is written back either.
pub data Lookup (T : Type 0) : Type 0 where
  hit : T → Lookup T
  miss : Text → Lookup T
  bypass : Lookup T

-- `a ?? b`
abbrev pub or_else : {A : Type 0} → Option A → A → A
or_else none b = b
or_else (some a) b = a

module _ {W : Type 0} (ctx : CacheContext W) where
  unfoldable pub cache_get : Text → Action W (Option Text)
  cache_get key = with_timeout (ctx.redis.get key) ctx.config.cache_timeout_ms

  unfoldable pub cache_set : Text → Text → ℕ → Action W (Unit {0})
  cache_set key value ttl =
      with_timeout (ctx.redis.set_ex key value ttl) ctx.config.cache_timeout_ms

  unfoldable pub cache_delete : Text → Action W (Unit {0})
  cache_delete key = with_timeout (ctx.redis.del key) ctx.config.cache_timeout_ms

  unfoldable pub cache_get_namespace_version : Text → Action W ℕ
  cache_get_namespace_version namespace = do
    raw ← with_timeout (ctx.redis.get (namespace_version_key namespace)) ctx.config.cache_timeout_ms
    pure (version_of raw)

  unfoldable pub cache_bump_namespace_version : Text → Action W ℕ
  cache_bump_namespace_version namespace =
      with_timeout (ctx.redis.incr (namespace_version_key namespace)) ctx.config.cache_timeout_ms

  -- A handler that warns and goes on with `value`.
  abbrev pub warn_then : {A : Type 0} → Text → Text → A → Exception → Action W A
  warn_then key message value error =
      modify (ctx.warn_once_per_minute key message error) >>= λ _. pure value

  -- What the wrappers of lists and entities do with the value read, `none` being null.
  abbrev pub cached_value :
      {T : Type 0} → Json T → (Text → Text → W → W) → Text → Option Text → Action W (Lookup T)
  cached_value json reply_header key none = pure (miss key)
  cached_value json reply_header key (some cached) = do
    modify (reply_header x_cache (codes "HIT"))
    value ← parse_or_throw json cached
    pure (hit value)
