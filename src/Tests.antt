-- ===== src/Tests.antt =====
-- Runs of the model on concrete inputs, and each theorem at one of them.
pub mod Fixtures
pub mod Databases
pub mod Sorting
pub mod Shared
pub mod Pagination
pub mod Post
pub mod Cache
pub mod Idempotency
pub mod RateLimit
pub mod Lifecycle
pub mod Worker
pub mod Connection
pub mod Auth
pub mod Accounts
pub mod Orders
pub mod Reads
pub mod Routes
pub mod Seed
pub mod Outbox
pub mod Migrate
