-- ===== src/Cache/Degrade.antt =====
-- packages/api-service/src/utils/cache.ts when Redis fails: what the wrappers may answer.
use backend_architecture.Prelude.{
  ℕ, ◌≡◌, refl, inl, inr, true, Option, none, some, Text, Result, ok, err, Action, arith,
  Result-cases, codes, ◌++◌,
}
use backend_architecture.Services.Json.{Json}
use backend_architecture.Cache.Primitives.{CacheContext, Lookup, hit, miss, bypass}
use backend_architecture.Cache.ListCache.{
  ListCacheOptions, read_list, write_list, serve_list, with_list_cache,
}
use backend_architecture.Cache.EntityCache.{
  EntityCacheOptions, read_entity, write_entity, keep_entity, serve_entity, with_entity_cache,
}
use backend_architecture.Cache.CountCache.{
  CountCacheOptions, read_count, write_count, serve_count, with_count_cache,
}

-- What a wrapper answers, by what its lookup found and how the fetcher ended.
abbrev pub served : {T : Type 0} → Result (Lookup T) → Result T → Result T
served (ok (hit v)) r = ok v
served (ok (miss key)) r = r
served (ok bypass) r = r
served (err e) r = r

module _ {W T : Type 0} (ctx : CacheContext W) (json : Json T) (options : ListCacheOptions W) where
  write_list-eq-ok : (key : Text) (v : T) (w : W) → (write_list ctx json options key v w).0 ≡ ok tt
  unfolding write_list
  write_list-eq-ok key v w = ground arith

  serve_list-eq-served :
      (fetcher : Action W T) (found : Lookup T) (w : W)
      → (serve_list ctx json options fetcher found w).0 ≡ served (ok found) (fetcher w).0
  unfolding serve_list
  serve_list-eq-served fetcher (hit v) w = refl
  serve_list-eq-served fetcher (miss key) w = elim (Result-cases (fetcher w).0) [
    | inl (v, e) ↦ ground (arith, write_list-eq-ok key v (fetcher w).1)
    | inr (x, e) ↦ ground arith
  ]
  serve_list-eq-served fetcher bypass w = refl

  -- The world in which the fetcher runs: after the read, and after the warning if the read failed.
  abbrev pub after_read_list : W → W
  after_read_list w =
      let (r, w') = read_list ctx json options w in
      elim r [
        | ok found ↦ w'
        | err e ↦
            ctx.warn_once_per_minute (codes "cache-read-" ++ options.namespace)
              (options.namespace ++ codes " cache read failed; serving from datastore") e w'
      ]

  -- With the cache enabled, whatever Redis does, `withListCache` returns the value that its read
  -- found in the cache, and otherwise ends exactly as the fetcher does after that read, with its
  -- value or its exception. A failure of Redis never becomes a failure of the request.
  pub with_list_cache-eq-served :
      (fetcher : Action W T) (w : W)
      → ctx.config.cache_enabled ≡ true
      → (with_list_cache ctx json options fetcher w).0
        ≡ served (read_list ctx json options w).0 (fetcher (after_read_list w)).0
  unfolding with_list_cache
  with_list_cache-eq-served fetcher w on = elim (Result-cases (read_list ctx json options w).0) [
    | inl (found, e) ↦
        ground (arith, serve_list-eq-served fetcher found (read_list ctx json options w).1)
    | inr (x, e) ↦ ground (arith, serve_list-eq-served fetcher bypass (after_read_list w))
  ]

abbrev pub served_entity : {T : Type 0} → Result (Lookup T) → Result (Option T) → Result (Option T)
served_entity (ok (hit v)) r = ok (some v)
served_entity (ok (miss key)) r = r
served_entity (ok bypass) r = r
served_entity (err e) r = r

module _ {W T : Type 0} (ctx : CacheContext W) (json : Json T)
    (options : EntityCacheOptions W) where
  write_entity-eq-ok : (v : T) (w : W) → (write_entity ctx json options v w).0 ≡ ok tt
  unfolding write_entity
  write_entity-eq-ok v w = ground arith

  keep_entity-eq : (o : Option T) (w : W) → (keep_entity ctx json options o w).0 ≡ ok o
  keep_entity-eq none w = refl
  keep_entity-eq (some v) w = ground (arith, write_entity-eq-ok v w)

  fetch_entity-eq :
      (fetcher : Action W (Option T)) (w : W)
      → (serve_entity ctx json options fetcher bypass w).0 ≡ (fetcher w).0
  unfolding serve_entity
  fetch_entity-eq fetcher w = elim (Result-cases (fetcher w).0) [
    | inl (o, e) ↦ ground (arith, keep_entity-eq o (fetcher w).1)
    | inr (x, e) ↦ ground arith
  ]

  serve_entity-eq-served :
      (fetcher : Action W (Option T)) (found : Lookup T) (w : W)
      → (serve_entity ctx json options fetcher found w).0 ≡ served_entity (ok found) (fetcher w).0
  unfolding serve_entity
  serve_entity-eq-served fetcher (hit v) w = refl
  serve_entity-eq-served fetcher (miss key) w = fetch_entity-eq fetcher w
  serve_entity-eq-served fetcher bypass w = fetch_entity-eq fetcher w

  abbrev pub after_read_entity : W → W
  after_read_entity w =
      let (r, w') = read_entity ctx json options w in
      elim r [
        | ok found ↦ w'
        | err e ↦
            ctx.warn_once_per_minute (codes "cache-read-" ++ options.namespace)
              (options.namespace ++ codes " cache read failed; serving from datastore") e w'
      ]

  -- With the cache enabled, whatever Redis does, `withEntityCache` returns the entity that its read
  -- found in the cache, and otherwise ends exactly as the fetcher does after that read: with the
  -- entity, with null for one that does not exist, or with its exception.
  pub with_entity_cache-eq-served :
      (fetcher : Action W (Option T)) (w : W)
      → ctx.config.cache_enabled ≡ true
      → (with_entity_cache ctx json options fetcher w).0
        ≡ served_entity (read_entity ctx json options w).0 (fetcher (after_read_entity w)).0
  unfolding with_entity_cache
  with_entity_cache-eq-served fetcher w on =
      elim (Result-cases (read_entity ctx json options w).0) [
        | inl (found, e) ↦
            ground (arith, serve_entity-eq-served fetcher found (read_entity ctx json options w).1)
        | inr (x, e) ↦ ground (arith, serve_entity-eq-served fetcher bypass (after_read_entity w))
      ]

module _ {W : Type 0} (ctx : CacheContext W) (options : CountCacheOptions) where
  write_count-eq-ok : (key : Text) (n : ℕ) (w : W) → (write_count ctx options key n w).0 ≡ ok tt
  unfolding write_count
  write_count-eq-ok key n w = ground arith

  serve_count-eq-served :
      (fetcher : Action W ℕ) (found : Lookup ℕ) (w : W)
      → (serve_count ctx options fetcher found w).0 ≡ served (ok found) (fetcher w).0
  unfolding serve_count
  serve_count-eq-served fetcher (hit v) w = refl
  serve_count-eq-served fetcher (miss key) w = elim (Result-cases (fetcher w).0) [
    | inl (v, e) ↦ ground (arith, write_count-eq-ok key v (fetcher w).1)
    | inr (x, e) ↦ ground arith
  ]
  serve_count-eq-served fetcher bypass w = refl

  abbrev pub after_read_count : W → W
  after_read_count w =
      let (r, w') = read_count ctx options w in
      elim r [
        | ok found ↦ w'
        | err e ↦
            ctx.warn_once_per_minute (codes "cache-read-" ++ (options.namespace ++ codes "-count"))
              (options.namespace ++ codes " count cache read failed; computing fresh count") e w'
      ]

  -- With the cache enabled, whatever Redis does, `withCountCache` returns the count that its read
  -- found in the cache, and otherwise ends exactly as the fetcher does after that read.
  pub with_count_cache-eq-served :
      (fetcher : Action W ℕ) (w : W)
      → ctx.config.cache_enabled ≡ true
      → (with_count_cache ctx options fetcher w).0
        ≡ served (read_count ctx options w).0 (fetcher (after_read_count w)).0
  unfolding with_count_cache
  with_count_cache-eq-served fetcher w on = elim (Result-cases (read_count ctx options w).0) [
    | inl (found, e) ↦
        ground (arith, serve_count-eq-served fetcher found (read_count ctx options w).1)
    | inr (x, e) ↦ ground (arith, serve_count-eq-served fetcher bypass (after_read_count w))
  ]
