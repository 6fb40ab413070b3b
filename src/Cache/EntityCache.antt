-- ===== src/Cache/EntityCache.antt =====
-- packages/api-service/src/utils/cache.ts: `withEntityCache`.
use backend_architecture.Prelude.{
  ℕ, Option, none, some, ◌++◌, Text, codes, Action, pure, ◌>>=◌, ◌>>◌, try_catch, modify,
  if◌then◌else◌,
}
use backend_architecture.Services.Json.{Json}
use backend_architecture.Cache.Primitives.{
  CacheContext, Lookup, hit, miss, bypass, or_else, x_cache, cache_get, cache_set, warn_then,
  cached_value,
}

pub record EntityCacheOptions (W : Type 0) : Type 0 where
  pub key : Text
  pub namespace : Text
  pub reply_header : Text → Text → W → W
  pub ttl_seconds : Option ℕ

module _ {W : Type 0} (ctx : CacheContext W) where
  -- The first `try` block of `withEntityCache`. After an error the entity is still written back.
  unfoldable pub read_entity : {T : Type 0} → Json T → EntityCacheOptions W → Action W (Lookup T)
  read_entity json options = do
    cached ← cache_get ctx options.key
    cached_value ctx json options.reply_header options.key cached

  unfoldable pub write_entity :
      {T : Type 0} → Json T → EntityCacheOptions W → T → Action W (Unit {0})
  write_entity json options result =
      try_catch
        (do
          cache_set ctx options.key (json.stringify result)
              (or_else options.ttl_seconds ctx.config.cache_ttl_seconds)
          modify (options.reply_header x_cache (codes "MISS")))
        (warn_then ctx (codes "cache-write-" ++ options.namespace)
          (options.namespace ++ codes " cache write failed; response still served") tt)

  -- An entity that is not found, null, is not cached.
  abbrev pub keep_entity :
      {T : Type 0} → Json T → EntityCacheOptions W → Option T → Action W (Option T)
  keep_entity json options none = pure none
  keep_entity json options (some result) =
      write_entity json options result >>= λ _. pure (some result)

  unfoldable pub serve_entity :
      {T : Type 0}
      → Json T
      → EntityCacheOptions W
      → Action W (Option T)
      → Lookup T
      → Action W (Option T)
  unfolding write_entity
  serve_entity json options fetcher (hit value) = pure (some value)
  serve_entity json options fetcher (miss key) = fetcher >>= keep_entity json options
  serve_entity json options fetcher bypass = fetcher >>= keep_entity json options

  unfoldable pub with_entity_cache :
      {T : Type 0} → Json T → EntityCacheOptions W → Action W (Option T) → Action W (Option T)
  with_entity_cache json options fetcher =
      if ctx.config.cache_enabled
      then (try_catch (read_entity json options) (
            warn_then ctx (codes "cache-read-" ++ options.namespace)
              (options.namespace ++ codes " cache read failed; serving from datastore") bypass)
          >>= serve_entity json options fetcher)
      else fetcher
