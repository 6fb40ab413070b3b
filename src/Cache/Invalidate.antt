-- ===== src/Cache/Invalidate.antt =====
-- packages/api-service/src/utils/cache.ts: the invalidation helpers.
use backend_architecture.Prelude.{◌++◌, Text, codes, Action, pure, ◌>>=◌, try_catch, if◌then◌else◌}
use backend_architecture.Cache.Primitives.{CacheContext, warn_then}
use backend_architecture.Cache.Primitives.{cache_bump_namespace_version, cache_delete}

module _ {W : Type 0} (ctx : CacheContext W) where
  unfoldable pub invalidate_list_namespace : Text → Action W (Unit {0})
  invalidate_list_namespace namespace =
      if ctx.config.cache_enabled
      then try_catch (cache_bump_namespace_version ctx namespace >>= λ _. pure tt) (
          warn_then ctx (codes "cache-invalidate-" ++ namespace)
            (codes "Failed to bump "
              ++ (namespace ++ codes " cache version; stale list responses may be served briefly"))
            tt)
      else pure tt

  unfoldable pub invalidate_entity : Text → Text → Action W (Unit {0})
  invalidate_entity key namespace =
      if ctx.config.cache_enabled
      then try_catch (cache_delete ctx key) (
          warn_then ctx (codes "cache-delete-" ++ namespace)
            (namespace ++ codes " cache delete failed") tt)
      else pure tt
