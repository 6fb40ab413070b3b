-- ===== src/SystemRoutes.antt =====
-- packages/api-service/src/routes/system.routes.ts: the readiness of the API.
use backend_architecture.Prelude.{
  ℕ, ◌<◌, ◌≡◌, ◌↔◌, refl, inl, inr, Option, none, some, Result, ok, err, Pending, arith,
  Result-cases,
}
use backend_architecture.Cache.Primitives.{with_timeout}

-- What the report says of a dependency; a dependency that was not asked is left out.
pub data Health : Type 0 where
  fine failed degraded : Health

-- The status code, and the report on the datastore and the cache.
pub record ReadyReply : Type 0 where
  pub status : ℕ
  pub datastore : Health
  pub cache : Option Health

abbrev with_cache : {A : Type 0} → Result A → ReadyReply
with_cache (ok _) = record { status = 200; datastore = fine; cache = some fine }
with_cache (err e) = record { status = 200; datastore = fine; cache = some degraded }

-- GET /health/ready, given `SELECT 1`, `PING` and the time to wait for Redis
unfoldable pub ready :
    {W : Type 0}
    → (W → Pending (Unit {0}) × W)
    → (W → Pending (Unit {0}) × W)
    → ℕ
    → W
    → ReadyReply × W
ready select_one ping cache_timeout_ms w =
    let (r, w') = with_timeout select_one 2000 w in
    elim r [
      | ok _ ↦ (let (p, w'') = with_timeout ping cache_timeout_ms w' in (with_cache p, w''))
      | err e ↦ (record { status = 503; datastore = failed; cache = none }, w')
    ]

with_cache-status : {A : Type 0} (r : Result A) → (with_cache r).status ≡ 200
with_cache-status (ok a) = refl
with_cache-status (err e) = refl

-- The API counts as ready exactly if the database answers `SELECT 1` without an error in less than
-- two seconds, whatever Redis does.
pub ready-iff-datastore :
    {W : Type 0} (select_one ping : W → Pending (Unit {0}) × W) (cache_timeout_ms : ℕ) (w : W)
    → ((ready select_one ping cache_timeout_ms w).0.status ≡ 200)
      ↔ (((select_one w).0.result ≡ ok tt) × ((select_one w).0.delay_ms < 2000))
unfolding ready with_timeout
ready-iff-datastore select_one ping cache_timeout_ms w =
    let w' = (select_one w).1 in
    let served = with_cache-status (with_timeout ping cache_timeout_ms w').0 in
    elim (Result-cases (select_one w).0.result) [
      | inl (_, done) ↦ ground arith
      | inr (x, threw) ↦ ground arith
    ]
