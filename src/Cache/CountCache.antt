-- ===== src/Cache/CountCache.antt =====
-- packages/api-service/src/utils/cache.ts: `withCountCache`.
use backend_architecture.Prelude.{
  ℕ, Option, none, some, ◌++◌, Text, codes, Action, pure, ◌>>=◌, try_catch, if◌then◌else◌,
}
use backend_architecture.Cache.Primitives.{
  CacheContext, Lookup, hit, miss, bypass, or_else, cache_get, cache_set,
  cache_get_namespace_version, warn_then,
}
use backend_architecture.Prelude.{◌==◌}
use backend_architecture.Prelude.Decimal.{Number, nan, whole, negative, parse_int, decimal}
use backend_architecture.Cache.Key.{Query, build_count_cache_key}

pub record CountCacheOptions : Type 0 where
  pub namespace : Text
  pub query : Query
  pub ttl_seconds : Option ℕ

-- A cached count is used only if it reads as a number that is 0 or more.
abbrev count_of_number : Text → Number → Lookup ℕ
count_of_number key nan = miss key
count_of_number key (whole n) = hit n
count_of_number key (negative n) = if n == 0 then hit 0 else miss key

abbrev pub count_lookup : Text → Option Text → Lookup ℕ
count_lookup key none = miss key
count_lookup key (some cached) = count_of_number key (parse_int cached)

module _ {W : Type 0} (ctx : CacheContext W) where
  -- The `try` block of `withCountCache`.
  unfoldable pub read_count : CountCacheOptions → Action W (Lookup ℕ)
  read_count options = do
    version ← cache_get_namespace_version ctx options.namespace
    let cache_key = build_count_cache_key options.namespace version options.query
    cached ← cache_get ctx cache_key
    pure (count_lookup cache_key cached)

  unfoldable pub write_count : CountCacheOptions → Text → ℕ → Action W (Unit {0})
  write_count options cache_key value =
      try_catch
        (cache_set ctx cache_key (decimal value)
          (or_else options.ttl_seconds ctx.config.cache_list_count_ttl_seconds))
        (warn_then ctx (codes "cache-write-" ++ (options.namespace ++ codes "-count"))
          (options.namespace ++ codes " count cache write failed; result still served") tt)

  unfoldable pub serve_count : CountCacheOptions → Action W ℕ → Lookup ℕ → Action W ℕ
  serve_count options fetcher (hit value) = pure value
  serve_count options fetcher (miss cache_key) = do
    value ← fetcher
    write_count options cache_key value >>= λ _. pure value
  serve_count options fetcher bypass = fetcher

  unfoldable pub with_count_cache : CountCacheOptions → Action W ℕ → Action W ℕ
  with_count_cache options fetcher =
      if ctx.config.cache_enabled
      then (try_catch (read_count options) (
            warn_then ctx (codes "cache-read-" ++ (options.namespace ++ codes "-count"))
              (options.namespace ++ codes " count cache read failed; computing fresh count") bypass)
          >>= serve_count options fetcher)
      else fetcher
