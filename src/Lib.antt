-- ===== src/Lib.antt =====
-- The core of @iverihq/nest-sdk, the library of building blocks that the platform's NestJS services
-- share. Its parts keep to themselves: a service wires the ones it uses, and what they share is a
-- Redis client, a database and the values that go over them.
--
-- - Common: text as the list of a string's UTF-16 code units, what the code calls of strings and
--   arrays, and lemmas on lists.
-- - RateLimit (src/rate-limit): the Lua script that keeps a token bucket in Redis
--   (RateLimit.Bucket), the names of the buckets (RateLimit.Key) and `RateLimitService.consume`
--   (RateLimit.Service), which builds the arguments of the script and turns its reply, or the lack
--   of one, into a decision. RateLimit.Shared runs requests of several buckets over one
--   store, whose keys expire.
-- - Outbox (src/outbox): the rows (Outbox.Event), the queries of `OutboxEventRepository`
--   (Outbox.Repository), the retry schedule (Outbox.Retry), `OutboxProcessor` (Outbox.Processor),
--   and Outbox.System, a step relation in which any number of processors, each with any number of
--   attempts under way, share one table. An attempt is a step of its own, taken with the row that
--   its claim returned, however late. Outbox.Draining follows one event through the cycles of a
--   processor until it is settled.
-- - Repository (src/repository, src/entity): the two functions that scope a `where` and strip
--   values (Repository.Scope), each operation of `BaseRepository` (Repository.Base) as a function of
--   one table of rows of several tenants, and the scoped query builder (Repository.Builder).
--   Repository.Partition cuts that table down to the rows of one tenant.
-- - Http: the headers of a request, as the next three read them.
-- - Auth (src/auth): the verification of an access token (Auth.AccessToken), `AuthGuard`
--   (Auth.Guard), `PermissionGuard` with both guards in turn (Auth.Permission), and the options that
--   `AuthModule` makes of a service's (Auth.Module).
-- - Context (src/context): the assignment of a correlation id and the middleware
--   (Context.Correlation), and the service over contexts that tasks share (Context.Store).
-- - Exception (src/exception, src/observability/route-pattern.util.ts): values as the filter sees
--   them (Exception.Value), the response to each thrown value (Exception.Normalize), the exception
--   classes (Exception.Catalogue), and `GlobalExceptionFilter.catch` with its log line and its
--   report (Exception.Filter), which uses the paths and labels of Exception.Route.
-- - Health (src/health): the probes over the registered checks, the check of the database, the
--   routes, and what the module provides.
-- - ServiceToken (src/service-token): the cached token and its exchange (ServiceToken.Service), and
--   the callers that share an exchange as a step relation (ServiceToken.System), in which each step
--   is one turn of the event loop: a call, an exchange that settles, its `finally`, `invalidate`.
-- - Scrub (src/observability/error/scrub-event.util.ts): what is stripped from an error report.
-- - Reporter (src/observability/error/error-reporter.service.ts): what Sentry is started with and told,
--   with the exceptions that the filter hands over.
-- - Metrics (src/observability/metrics): the middleware that counts requests (Metrics.Http), the
--   queue depths and sources that a scrape samples (Metrics.Depth), the pool (Metrics.Pool), the
--   sweeps (Metrics.Sweep), and the names that the constructors take (Metrics.Registry). What they
--   call of the Prometheus client, with its laws, stands in Metrics.Client.
-- - Redis (src/redis): the client's options, its shutdown and the throttled log of its errors.
-- - Encryption (src/encryption): the envelope (Encryption.Service) over a cipher, base64 and UTF-8
--   that Encryption.Crypto states the laws of.
-- - Storage (src/storage): the objects of a bucket. Config (src/config): the validation of the
--   environment, with its message, and the variables that every service has (Config.BaseEnv).
-- - Registered (src/testing/registered-route.ts): the list of a service's routes, against the guards
--   of Auth, which read the same metadata.
-- - Socket (src/socket): the test of a handshake's origin.
-- - Tables (src/e2e/truncate-all-tables.util.ts): the statement that empties the test tables.
--   Containers (the rest of src/e2e): the setup of a suite's database and Redis.
-- - Wiring (the `*.module.ts` files): what the modules import, provide and export.
-- - Swagger (src/swagger): the script of the documentation page.
--
-- Correspondence. A function keeps its name in snake case, a class is a module or a record of its
-- fields, and a call that mutates a row or a table returns the new one. A promise that is rejected
-- is an absent reply or the second side of a sum. Strings are lists of code units where the
-- code reads them; ids, claim tokens and tenants of the outbox and the repository, which are compared
-- only, are numbers.
--
-- Parameters. Redis and ioredis, PostgreSQL's locks and clock, and TypeORM are not the code's own.
-- The script is given the instant and the stored fields; a claim is given the database's instant,
-- the process's own, the fresh token, and a predicate for the rows that other transactions hold
-- locked; `BaseRepository` is given a record `Orm` of what TypeORM does with a property, an order,
-- relations, an update and a save. The Prometheus client, the S3 client, Sentry, class-validator and the ciphers of
-- Node are records of the operations that the code calls, with the laws, where a theorem takes
-- any, that are documented of them. The JWT library is a function from a token to what it says of it, the reflector's metadata
-- a field of the execution context, and `randomUUID` an argument wherever it is called. Each
-- theorem names what it takes of them.
--
-- Bounds. Numbers are natural. Rounding of doubles is left out, so what is said of the limiter is said of exact
-- arithmetic, and the wait that a refused caller is told may differ by the rounding: tokens are counted in 1/60000 of a
-- token, which makes the script's arithmetic exact, and the random number of the retry schedule is
-- a fraction below 1. No definition needs fuel: all recursion is over lists
-- and trees.
--
-- Not modelled: what decorators and the factories of Nest modules do beyond the names that they
-- wire; the style sheet of the documentation page, which is a text; the registry that
-- `MetricsService` hands out; log lines other than the filter's, the dead letters' and the Redis
-- client's; index files, which only export.
pub mod Auth
pub mod Common
pub mod Config
pub mod Containers
pub mod Context
pub mod Encryption
pub mod Exception
pub mod Health
pub mod Http
pub mod Metrics
pub mod Outbox
pub mod RateLimit
pub mod Redis
pub mod Registered
pub mod Reporter
pub mod Repository
pub mod Scrub
pub mod ServiceToken
pub mod Socket
pub mod Storage
pub mod Swagger
pub mod Tables
pub mod Wiring
