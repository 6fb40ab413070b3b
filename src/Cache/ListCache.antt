-- ===== src/Cache/ListCache.antt =====
-- packages/api-service/src/utils/cache.ts: `withListCache`.
use backend_architecture.Prelude.{
  ℕ, Option, ◌++◌, Text, codes, Action, pure, ◌>>=◌, ◌>>◌, try_catch, modify, if◌then◌else◌,
}
use backend_architecture.Services.Json.{Json}
use backend_architecture.Cache.Primitives.{
  CacheContext, Lookup, hit, miss, bypass, or_else, x_cache, cache_get, cache_set,
  cache_get_namespace_version, warn_then, cached_value,
}
use backend_architecture.Cache.Key.{Query, build_list_cache_key}

pub record ListCacheOptions (W : Type 0) : Type 0 where
  pub namespace : Text
  pub query : Query
  -- `reply.header(name, value)`
  pub reply_header : Text → Text → W → W
  pub ttl_seconds : Option ℕ

module _ {W : Type 0} (ctx : CacheContext W) where
  -- The `try` block of `withListCache`.
  unfoldable pub read_list : {T : Type 0} → Json T → ListCacheOptions W → Action W (Lookup T)
  read_list json options = do
    version ← cache_get_namespace_version ctx options.namespace
    let cache_key = build_list_cache_key options.namespace version options.query
    cached ← cache_get ctx cache_key
    cached_value ctx json options.reply_header cache_key cached

  -- Writes the fetched value back; a failure is only warned about.
  unfoldable pub write_list :
      {T : Type 0} → Json T → ListCacheOptions W → Text → T → Action W (Unit {0})
  write_list json options cache_key result =
      try_catch
        (do
          cache_set ctx cache_key (json.stringify result)
              (or_else options.ttl_seconds ctx.config.cache_ttl_seconds)
          modify (options.reply_header x_cache (codes "MISS")))
        (warn_then ctx (codes "cache-write-" ++ options.namespace)
          (options.namespace ++ codes " cache write failed; response still served") tt)

  unfoldable pub serve_list :
      {T : Type 0} → Json T → ListCacheOptions W → Action W T → Lookup T → Action W T
  serve_list json options fetcher (hit value) = pure value
  serve_list json options fetcher (miss cache_key) = do
    result ← fetcher
    write_list json options cache_key result >>= λ _. pure result
  serve_list json options fetcher bypass = fetcher

  unfoldable pub with_list_cache :
      {T : Type 0} → Json T → ListCacheOptions W → Action W T → Action W T
  with_list_cache json options fetcher =
      if ctx.config.cache_enabled
      then (try_catch (read_list json options) (
            warn_then ctx (codes "cache-read-" ++ options.namespace)
              (options.namespace ++ codes " cache read failed; serving from datastore") bypass)
          >>= serve_list json options fetcher)
      else fetcher
