-- ===== src/Cache/Fresh.antt =====
-- packages/api-service/src/utils/cache.ts: reads after a write to the cache, and after an invalidation.
use backend_architecture.Prelude.{
  ℕ, ◌+◌, ◌<◌, ◌≡◌, ◌≢◌, refl, sym, ◌∙◌, ap, ◌⊎◌, inl, inr, true, Option, none, some, Text, [], ◌∷◌,
  ok, Action, arith,
}
use backend_architecture.Prelude.Decimal.{
  decimal, parse_int-decimal, decimal-ne-nil, parse_int, whole,
}
use backend_architecture.Services.Redis.{IsRedis}
use backend_architecture.Services.Json.{Json}
use backend_architecture.Cache.Key.{build_list_cache_key, namespace_version_key}
use backend_architecture.Cache.Primitives.{
  CacheContext, hit, miss, version_of, cache_get, cache_get_namespace_version,
  cache_bump_namespace_version, with_timeout,
}
use backend_architecture.Cache.ListCache.{ListCacheOptions, read_list, with_list_cache}
use backend_architecture.Cache.Invalidate.{invalidate_list_namespace}
use backend_architecture.Cache.Degrade.{served, after_read_list, with_list_cache-eq-served}

-- Redis answers every `GET` with the live value before the timeout.
abbrev pub Answers : {W : Type 0} → CacheContext W → (W → Text → Option Text) → Type 0
Answers {W} ctx cell =
    (k : Text) (w : W)
    → ((ctx.redis.get k w).0.result ≡ ok (cell w k))
      × ((ctx.redis.get k w).0.delay_ms < ctx.config.cache_timeout_ms)

version_of-decimal : (n : ℕ) → version_of (some (decimal n)) ≡ n
version_of-decimal n = go (decimal n) (parse_int-decimal n) (decimal-ne-nil n)
  where
    go : (s : Text) → parse_int s ≡ whole n → s ≢ [] → version_of (some s) ≡ n
    go [] e ne = absurd (ne refl)
    go (c ∷ s) e ne = rw e

module _ {W T : Type 0} (ctx : CacheContext W) (json : Json T) (options : ListCacheOptions W)
    (cell : W → Text → Option Text) (answers : Answers ctx cell) where
  cache_get-eq-cell : (k : Text) (w : W) → (cache_get ctx k w).0 ≡ ok (cell w k)
  unfolding cache_get with_timeout
  cache_get-eq-cell k w = let a = answers k w in ground (arith)

  version-eq-cell :
      (w : W)
      → (cache_get_namespace_version ctx options.namespace w).0
        ≡ ok (version_of (cell w (namespace_version_key options.namespace)))
  unfolding cache_get_namespace_version with_timeout
  version-eq-cell w = let a = answers (namespace_version_key options.namespace) w in ground (arith)

  -- The current version of the namespace, as the wrapper reads it.
  abbrev pub version_at : W → ℕ
  version_at w = version_of (cell w (namespace_version_key options.namespace))

  abbrev pub page_key : ℕ → Text
  page_key v = build_list_cache_key options.namespace v options.query

  module _ (laws : IsRedis ctx.redis cell) where
    cache_get-keeps : (k j : Text) (w : W) → cell (cache_get ctx k w).1 j ≡ cell w j
    unfolding cache_get with_timeout
    cache_get-keeps k j w = laws.get_keeps k j w

    version-keeps :
        (j : Text) (w : W)
        → cell (cache_get_namespace_version ctx options.namespace w).1 j ≡ cell w j
    unfolding cache_get_namespace_version with_timeout
    version-keeps j w =
        let a = answers (namespace_version_key options.namespace) w in
        ground (arith, laws.get_keeps (namespace_version_key options.namespace) j w)

    -- Where Redis answers, the lookup goes by the live version, and by the live value under the key of
    -- that version.
    read_list-miss :
        (w : W)
        → cell w (page_key (version_at w)) ≡ none
        → (read_list ctx json options w).0 ≡ ok (miss (page_key (version_at w)))
    unfolding read_list
    read_list-miss w absent =
        let w1 = (cache_get_namespace_version ctx options.namespace w).1 in
        ground (
          arith,
          version-eq-cell w,
          version-keeps (page_key (version_at w)) w,
          cache_get-eq-cell (page_key (version_at w)) w1,
        )

    read_list-hit :
        (w : W) (v : T)
        → cell w (page_key (version_at w)) ≡ some (json.stringify v)
        → json.parse (json.stringify v) ≡ some v
        → (read_list ctx json options w).0 ≡ ok (hit v)
    unfolding read_list
    read_list-hit w v held back =
        let w1 = (cache_get_namespace_version ctx options.namespace w).1 in
        ground (
          arith,
          version-eq-cell w,
          version-keeps (page_key (version_at w)) w,
          cache_get-eq-cell (page_key (version_at w)) w1,
        )

    module _ (enabled : ctx.config.cache_enabled ≡ true) where
      -- Where Redis answers in time and holds, under the page's key at the live version, a value that
      -- reads back, `withListCache` returns that value whatever the fetcher would do.
      pub with_list_cache_hit :
          (fetcher : Action W T) (w : W) (v : T)
          → cell w (page_key (version_at w)) ≡ some (json.stringify v)
          → json.parse (json.stringify v) ≡ some v
          → (with_list_cache ctx json options fetcher w).0 ≡ ok v
      with_list_cache_hit fetcher w v held back =
          with_list_cache-eq-served ctx json options fetcher w enabled
          ∙ ap (λ r. served r (fetcher (after_read_list ctx json options w)).0)
              (read_list-hit w v held back)

      -- Where it holds nothing under that key, the response is the fetcher's.
      with_list_cache_miss :
          (fetcher : Action W T) (w : W)
          → cell w (page_key (version_at w)) ≡ none
          → (with_list_cache ctx json options fetcher w).0
            ≡ (fetcher (after_read_list ctx json options w)).0
      with_list_cache_miss fetcher w absent =
          with_list_cache-eq-served ctx json options fetcher w enabled
          ∙ ap (λ r. served r (fetcher (after_read_list ctx json options w)).0)
              (read_list-miss w absent)

      bumped : W → W
      bumped w = (invalidate_list_namespace ctx options.namespace w).1

      -- The `INCR` of the invalidation succeeds before the timeout.
      abbrev pub Bumps : W → Type 0
      Bumps w =
          let p = (ctx.redis.incr (namespace_version_key options.namespace) w).0 in
          (n : ℕ) × (p.result ≡ ok n) × (p.delay_ms < ctx.config.cache_timeout_ms)

      bumped-eq-incr :
          (w : W)
          → Bumps w
          → bumped w ≡ (ctx.redis.incr (namespace_version_key options.namespace) w).1
      unfolding bumped invalidate_list_namespace cache_bump_namespace_version with_timeout
      bumped-eq-incr w (n, done, soon) = ground (arith)

      -- The version is missing, or the decimal numeral of a number.
      abbrev pub IsVersioned : W → Type 0
      IsVersioned w =
          (cell w (namespace_version_key options.namespace) ≡ none)
          ⊎ ((n : ℕ) × (cell w (namespace_version_key options.namespace) ≡ some (decimal n)))

      version_at-bumped :
          (w : W) → IsVersioned w → Bumps w → version_at (bumped w) ≡ version_at w + 1
      version_at-bumped w (inl new) b =
          rw (bumped-eq-incr w b, (laws.incr_new _ w b.0 b.1 new).1, new)
            (version_of-decimal 1 ∙ omega arith)
      version_at-bumped w (inr (n, old)) b =
          rw (bumped-eq-incr w b, (laws.incr_old _ w b.0 n b.1 old).1, old)
            (version_of-decimal (n + 1) ∙ ap (λ k. k + 1) (sym (version_of-decimal n)))

      -- After `invalidateListNamespace` has reached Redis, the next `withListCache` for any page of the
      -- namespace answers with what the fetcher gives at that moment, never with a page cached
      -- before. Redis answers in time, the version key holds a numeral or nothing and is no page's key,
      -- and no page is cached under a version that is still to come.
      pub with_list_cache-invalidate_list_namespace :
          (fetcher : Action W T) (w : W)
          → IsVersioned w
          → Bumps w
          → ((v : ℕ) → page_key v ≢ namespace_version_key options.namespace)
          → ((v : ℕ) → version_at w < v → cell w (page_key v) ≡ none)
          → let w' = (invalidate_list_namespace ctx options.namespace w).1 in
            (with_list_cache ctx json options fetcher w').0
            ≡ (fetcher (after_read_list ctx json options w')).0
      unfolding bumped
      with_list_cache-invalidate_list_namespace fetcher w versioned b apart fresh =
          with_list_cache_miss fetcher (bumped w) (
            rw
              (
                version_at-bumped w versioned b,
                bumped-eq-incr w b,
                laws.incr_keeps _ _ w (apart (version_at w + 1)),
              )
              (fresh (version_at w + 1) (omega arith)))
