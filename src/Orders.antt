-- ===== src/Orders.antt =====
-- packages/api-service/src/routes/orders.routes.ts
pub mod Tables
pub mod Create
pub mod Patch
pub mod Post
pub mod Reads
pub mod Audit
pub mod Quiet
pub mod Placed
pub mod Atomic
pub mod Changed
pub mod Guarded
pub mod Total
pub mod Overflow
