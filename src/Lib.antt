-- ===== src/Lib.antt =====
-- EventRelay: a webhook gateway. A producer posts an event; the event is fanned out to the endpoints
-- that subscribe to it; workers send it to each of them, signed, with retries.
--
-- The parts and how they interact. `ingestEvent` writes an event, a delivery for each endpoint and a
-- row of the outbox for each delivery in one transaction. `OutboxPublisher.drain` moves the rows of
-- the outbox to Redis streams, sharded by ordering key. `DeliveryWorker.processJob` takes a job from a
-- stream, asks the rate limiter and the circuit breaker, checks the URL, sends the signed request,
-- records what came of it, and acknowledges the message. `RetryScheduler.pollAndReenqueue` takes the
-- deliveries whose retry is due and puts them in the outbox again. `replayDelivery` does so by hand.
-- Each of them lets `syncEventStatus` derive the event's status from those of its deliveries. A request
-- passes `requireApiKey`, and an event the inbound limiter, before its handler runs; `runMigrations`
-- brings the tables up to date before anything else starts.
--
-- The files, and the code that each models:
--   Store          the tables (backend/src/db/schema.sql), the Redis state, and handlers as functions
--                  from a world to an outcome and the next world; `query` and `withTransaction` of
--                  backend/src/db/client.ts. Store.Atomic and Store.Frame reason about handlers.
--   Gateway        backend/src/index.ts: the routes with the middleware before each handler, and the
--                  start of the process; Http has what is read of a request
--   Lifecycle      start, stop and poke of the timers in backend/src/worker; Lifecycle.Shutdown has the
--                  shutdown of backend/src/index.ts
--   Config         backend/src/config/index.ts
--   Dashboard      frontend/src/App.tsx with the key editor of components/Header.tsx: the page's state, its
--                  handlers and timers, and what they send
--   Auth           backend/src/middleware/auth.ts
--   InboundLimit   backend/src/middleware/rateLimit.ts
--   Api            backend/src/api/endpointsController.ts, circuitController.ts, and the
--                  lists of eventsController.ts and deliveriesController.ts
--   Migrator       backend/src/db/migrator.ts, on the catalog of Store.Tables
--   Ingest         backend/src/api/eventsController.ts
--   Outbox         backend/src/worker/outboxPublisher.ts
--   Worker         backend/src/worker/deliveryWorker.ts
--   Scheduler      backend/src/worker/retryScheduler.ts
--   Replay         backend/src/api/deliveriesController.ts
--   EventStatus    backend/src/db/eventStatus.ts
--   Circuit        backend/src/resilience/circuitBreaker.ts; Circuit.Machine is its specification
--   RateLimiter    backend/src/resilience/tokenBucket.ts
--   Backoff        backend/src/resilience/backoff.ts
--   Lease          backend/src/worker/shardLeaseCoordinator.ts
--   Partitioner    backend/src/sharding/partitioner.ts
--   StreamQueue    backend/src/redis/streamQueue.ts
--   Ssrf           backend/src/security/ssrfValidator.ts
--   HmacSigner     backend/src/crypto/hmacSigner.ts
--   Metrics        backend/src/metrics/prometheus.ts
--   System         histories of all of these, step by step
--   Base, Sample   helpers, and data for the tests in the modules called Tests
-- A function of the code has the same name here in snake case; a part of one is named for what it
-- does. A record has the fields of its class or the columns of its table.
--
-- Failures. Every call to PostgreSQL or Redis consumes one entry of `faults`, which says whether it
-- throws; a call that throws has done nothing. An empty list is an environment where nothing fails.
-- A transaction runs alone, a rollback restores the tables, and a COMMIT that fails counts as a
-- rollback; what the handler did elsewhere (Redis, metrics, requests) stays. Rows that other
-- transactions hold, which SKIP LOCKED passes over, are a parameter. Races between single statements
-- are in Circuit.Race, as sequences of steps.
--
-- Representation. A UUID is a number, drawn from a sequence of the world; a text is a list of UTF-16
-- code units; a time is in milliseconds of one clock; ties in an ORDER BY keep the order of insertion.
-- `Math.random()` is a multiple of 2 ^ -53. The numbers of the hash are integers, where the
-- code has doubles. Rates of the limiter are whole, and its tokens are counted
-- in thousandths. `parseInt` is modelled on texts with no sign and no leading space.
--
-- Bounds. `getCircuit` calls itself after a lost race for the INSERT; it has two reads, and one is
-- enough where no call fails. `isPrivateOrReservedIp` calls itself on a text seven units shorter, so
-- the text's length and one is enough fuel. Writing a number n in decimal takes at most n + 1 rounds.
--
-- A job's environment is fixed: the resolver answers alike within one job. What it answers when the
-- socket connects is the matter of Ssrf.Agents. A rotation of leases is a matter of one time at which
-- Redis and the workers agree. A shutdown runs with no heartbeat of the worker under way, up to the
-- moment when the server is told to close.
--
-- The migrations run on a catalog: the definitions of tables and columns as texts, the indexes, the
-- extensions and the comments. A statement fails if a table or column that it names is missing; that it
-- may fail on the rows that are there, or on a value too long for its column, is left to `faults`.
--
-- Streams. XREADGROUP and XAUTOCLAIM are parameters (`Commands`), and StreamQueue.Group has what Redis
-- documents of them: an entry is handed out by a claim, which has a consumer and a time; an entry without
-- a claim is new, and one whose claim is old and that is not acknowledged can be reclaimed. The loop of
-- the worker is a list of rounds, each with the shards that the worker then owns and with whether it is
-- still running at each of them; sleeping moves the clock. It takes the identifiers of a job back from
-- their texts by a parameter.
--
-- The dashboard. A handler runs alone, from its click to its end; the server is a function from the
-- number of a call to its answer. Timers fire at the end of a wait. Percentages are exact.
--
-- Parameters: the HMAC, Node's net, dns, URL and Buffer, zod's test of a URL, random bytes, the receiver
-- of requests (`Env.http`), what the statements' errors say, the column
-- updated_at of the breakers, and the browser's `fetch` and JSON. Not
-- modelled: CORS and the tracing
-- header, Express itself, logging, the markup of the dashboard, and the scripts and the mock receiver,
-- which run against a deployed system. backend/dist is the compiled code of an older state.
pub mod Api
pub mod Auth
pub mod Base
pub mod Config
pub mod Dashboard
pub mod Gateway
pub mod Http
pub mod InboundLimit
pub mod Migrator
pub mod Sample
pub mod Store
pub mod Metrics
pub mod Backoff
pub mod Partitioner
pub mod StreamQueue
pub mod RateLimiter
pub mod Ssrf
pub mod EventStatus
pub mod Circuit
pub mod HmacSigner
pub mod Lifecycle
pub mod Worker
pub mod Outbox
pub mod Scheduler
pub mod Ingest
pub mod Replay
pub mod System
pub mod Lease
