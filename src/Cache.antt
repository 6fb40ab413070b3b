-- ===== src/Cache.antt =====
-- packages/api-service/src/utils/cache.ts and timeout.ts.
pub mod Key
pub mod Primitives
pub mod ListCache
pub mod EntityCache
pub mod CountCache
pub mod Invalidate
pub mod Degrade
pub mod Fresh
