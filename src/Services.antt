-- ===== src/Services.antt =====
-- What the API service calls and does not implement. `W` is the world that the services live in: the
-- Redis store, the database, the response under construction and the logger.
pub mod Redis
pub mod Postgres
pub mod Json
pub mod Memory
pub mod Sorting
