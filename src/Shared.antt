-- ===== src/Shared.antt =====
-- packages/shared/src/index.ts
pub mod Status
pub mod Env
