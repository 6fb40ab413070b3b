-- ===== src/Orders/Quiet.antt =====
-- packages/api-service/src/routes/orders.routes.ts: what the order routes do to the world and not to
-- the tables.
use backend_architecture.Cache.Primitives.{cache_bump_namespace_version}
use backend_architecture.Orders.Tables.{Tables}
use backend_architecture.Orders.Create.{OrderContext}
use backend_architecture.Prelude.{
  ◌≡◌, inl, inr, ◌++◌, Text, codes, Exception, ok, arith, Result-cases,
}
use backend_architecture.Cache.Key.{namespace_version_key}
use backend_architecture.Cache.Primitives.{cache_delete, with_timeout, timeout_error}
use backend_architecture.Cache.Invalidate.{invalidate_entity, invalidate_list_namespace}

-- What the rest of the world does not do to the tables.
pub record LeavesTables {W : Type 0} (ctx : OrderContext W) (committed working : W → Tables)
    : Type 1 where
  pub uuid_committed : (w : W) → committed (ctx.random_uuid w).1 ≡ committed w
  pub uuid_working : (w : W) → working (ctx.random_uuid w).1 ≡ working w
  pub connect_committed : (w : W) → committed (ctx.connect w).1 ≡ committed w
  pub release_committed : (w : W) → committed (ctx.release w) ≡ committed w
  pub incr_committed : (k : Text) (w : W) → committed (ctx.cache.redis.incr k w).1 ≡ committed w
  pub del_committed : (k : Text) (w : W) → committed (ctx.cache.redis.del k w).1 ≡ committed w
  pub warn_committed :
      (k m : Text) (e : Exception) (w : W)
      → committed (ctx.cache.warn_once_per_minute k m e w) ≡ committed w

module _ {W : Type 0} (ctx : OrderContext W) (committed working : W → Tables)
    (quiet : LeavesTables ctx committed working) where
  pub invalidate-committed :
      (namespace : Text) (w : W)
      → committed (invalidate_list_namespace ctx.cache namespace w).1 ≡ committed w
  unfolding invalidate_list_namespace cache_bump_namespace_version with_timeout
  invalidate-committed namespace w =
      let key = namespace_version_key namespace in
      let kept = quiet.incr_committed key w in
      let w1 = (ctx.cache.redis.incr key w).1 in
      let warned = quiet.warn_committed (codes "cache-invalidate-" ++ namespace) (
        codes "Failed to bump "
        ++ (namespace ++ codes " cache version; stale list responses may be served briefly")) in
      let late = warned (timeout_error ctx.cache.config.cache_timeout_ms) w1 in
      elim (Result-cases (ctx.cache.redis.incr key w).0.result) [
        | inl (n, counted) ↦ ground arith
        | inr (x, failed) ↦ let refused = warned x w1 in ground arith
      ]

  pub invalidate-ok :
      (namespace : Text) (w : W) → (invalidate_list_namespace ctx.cache namespace w).0 ≡ ok tt
  unfolding invalidate_list_namespace cache_bump_namespace_version
  invalidate-ok namespace w = ground arith

  pub delete-committed :
      (key namespace : Text) (w : W)
      → committed (invalidate_entity ctx.cache key namespace w).1 ≡ committed w
  unfolding invalidate_entity cache_delete with_timeout
  delete-committed key namespace w =
      let kept = quiet.del_committed key w in
      let w1 = (ctx.cache.redis.del key w).1 in
      let warned =
        quiet.warn_committed (codes "cache-delete-" ++ namespace)
          (namespace ++ codes " cache delete failed") in
      let late = warned (timeout_error ctx.cache.config.cache_timeout_ms) w1 in
      elim (Result-cases (ctx.cache.redis.del key w).0.result) [
        | inl (n, deleted) ↦ ground arith
        | inr (x, failed) ↦ let refused = warned x w1 in ground arith
      ]
