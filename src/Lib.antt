-- ===== src/Lib.antt =====
-- The backend architecture playground: an HTTP API for orders (packages/api-service), a worker that
-- consumes order events (packages/worker-service), a publisher of the outbox table
-- (packages/outbox-publisher), and a small shared package (packages/shared). The API writes an order,
-- its audit event and its outbox event in one Postgres transaction; the publisher sends outbox events
-- to RabbitMQ; the worker works on each event, retries it through a delay queue, and gives it up to a
-- dead-letter queue. Redis holds cached responses, idempotency records and counters of requests.
--
-- Services that the code calls are parameters. Services.Redis has the commands of Redis with their
-- documented effect on the live value of each key (IsRedis), Services.Postgres a pool and the client of
-- a transaction with committed and working tables (IsPool, IsClient), Services.Json the two functions of
-- JSON, Services.Sorting ORDER BY, which leaves open how equal rows are ordered (IsSorting). A function that awaits them is an action on the world they live in (Prelude.Effects): it returns
-- or throws, and what it did to the world stays done. An awaited command carries how it settles and
-- after how many milliseconds. SQL statements are functions on tables, read off their text. Every
-- hypothesis on a service is met by Services.Memory or by the fixtures under Tests.
--
-- Numbers are natural numbers; a counter that can fall below zero is in Prelude.Int, and what parseInt
-- can give, NaN included, in Prelude.Decimal. Texts are lists of character codes.
--
--   Prelude              lists, texts, numerals, effects: shared by all modules
--   Shared.Status        packages/shared/src/index.ts: orderStatusTransitions and its test
--   Shared.Env, Config   packages/shared/src/index.ts and packages/api-service/src/config.ts
--   Pagination           packages/api-service/src/utils/pagination.ts
--   Cache                packages/api-service/src/utils/cache.ts and timeout.ts. Key has the keys,
--                        ListCache, EntityCache and CountCache the wrappers, each split as its `try`
--                        blocks are; Degrade is about failures, Fresh about hits and invalidation
--   Idempotency          packages/api-service/src/utils/idempotency.ts. Attempt has one round of
--                        withIdempotency and the rounds, on fuel; two rounds are enough if no command
--                        fails and the key does not hold the empty text
--   ClientIdentity       packages/api-service/src/utils/client-identity.ts
--   RateLimit            packages/api-service/src/middleware/rate-limit.ts
--   Lifecycle            packages/api-service/src/hooks/request-lifecycle.ts, request-state.ts, and the
--                        shutdown of index.ts. The drain loop runs on fuel: one test for each 250 ms up
--                        to the deadline, and one more, are enough
--   Orders               packages/api-service/src/routes/orders.routes.ts: Tables has the rows and
--                        statements, Create the function createOrderTransactionally, Post the handler of
--                        POST /v1/orders, which runs it under withIdempotency, Patch the handler
--                        of PATCH /v1/orders/:id, Reads the handler of GET /v1/orders/:id, Reads.Where and
--                        Reads.Page the filters and the page of GET /v1/orders
--   Worker               packages/worker-service/src/index.ts: the events and their table; Handler has
--                        processEvent, handleMessage and requeueOrDeadLetter, Connection the channel, its
--                        consumer, reconnectLoop and shutdown, with loops on fuel: a turn for each refused
--                        connection and one more are enough for reconnectLoop
--   Outbox               packages/outbox-publisher/src/index.ts: the table and its statements; Poll has
--                        publish and pollOnce, Confirmed and Published what is marked and what was sent,
--                        Schedule the timer of the polls
--   Auth                 packages/api-service/src/routes/auth.routes.ts: createTokens and the refresh
--                        route; Accounts has registration, login and logout, and schemas/auth.schemas.ts;
--                        Bearer has middleware/authenticate.ts. argon2, jsonwebtoken and the making of
--                        random values are parameters
--   WarnOnce             packages/api-service/src/utils/warn-once.ts
--   SystemRoutes         packages/api-service/src/routes/system.routes.ts: the readiness
--   Migrate              scripts/migrate.mjs: Files loads the migrations, Runner applies them; what the SQL
--                        of a migration does to the tables that it is about is a parameter
--   Seed                 scripts/seed-orders.mjs: its arguments, the orders it makes, and the workers that
--                        share a cursor, taking turns in any order
--   Tests                each theorem at a concrete input
--
-- What a service does while an action runs is part of its command's effect on the world. In the worker,
-- a run that its timer has beaten goes on; the model puts all that such a run does before what the
-- handler does next.
--
-- Simplifications: lower() and toLowerCase() change the letters A to Z only. Identifiers are compared as
-- texts, so a UUID is taken to be spelled as Postgres spells it. A statement runs alone, so FOR UPDATE is
-- not represented, and where two requests overlap this is said with the theorem. A text under an
-- idempotency key reads as a record or as nothing.
--
-- Not modelled: metrics and logging, the connection and the health server of the outbox publisher, the
-- assembly of the HTTP server, the schemas of zod beyond those named above, and the other scripts and
-- configuration outside packages/, which drive or deploy the services.
pub mod Prelude
pub mod Shared
pub mod Pagination
pub mod Services
pub mod Config
pub mod Cache
pub mod Idempotency
pub mod ClientIdentity
pub mod RateLimit
pub mod Lifecycle
pub mod Migrate
pub mod Orders
pub mod Worker
pub mod Outbox
pub mod Auth
pub mod WarnOnce
pub mod SystemRoutes
pub mod Seed
pub mod Tests
