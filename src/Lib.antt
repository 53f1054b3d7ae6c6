-- ===== src/Lib.antt =====
-- Firecrawl Gateway: one API in front of a self-hosted Firecrawl and of Firecrawl Cloud.
--
-- A request to the gateway (apps/api/src) is authenticated and planned, then routed: it is sent to
-- self-hosted or to Cloud, and the route mode, what the request needs and what is private in it
-- decide which fallbacks are allowed. Every call of self-hosted passes a circuit breaker; every
-- call of Cloud needs a key, which credit routing reserves and later settles in a ledger that
-- Redis keeps. Responses of Cloud may be served again from a cache. Requests are counted per client
-- and per API key, settings are edited by the admin while the gateway runs, and alerts go to
-- Telegram.
--
-- The files, each with the code it is about:
--   Prelude, Prelude/*: library names, Boolean tests, lists over the native numbers, texts, parsed
--     JSON with `walk` (common/utils.ts), JavaScript's Map and Set.
--   Common: common/types.ts.
--   Breaker, Breaker/*: proxy/circuit-breaker.ts. `acquire`, `release` and `execute`; interleaved
--     calls are the step relation of Breaker/System.
--   Policy, Policy/*: proxy/policy.ts. The regular expressions are scanners over code units.
--   Cache, Cache/*: proxy/response-cache.ts. Cache is the class `ResponseCache`; Lookup is
--     `cacheLookupFor`, and Sorting, Reordered, FieldOrder and Clients are about its keys. Collect is
--     `captureForCache` and `collectForCache` of proxy/proxy.service.ts; Served has the requests
--     that look in the cache and those whose answers it stores.
--   Scanner, Scanner/*: the byte scanner of credits/credit-routing.service.ts, with the loop that
--     skips inside strings (`push`) and the loop that takes every byte (`push_bytes`).
--   Credits, Credits/*: `CreditRoutingService` of the same file: `reserve`, `recordResponse`,
--     `refreshCreditUsage` in the steps between which other requests run, and the estimate. It
--     uses the ledger through the record `LedgerStore`. Credits/Selection is the rule that it and
--     the ledger choose a key by.
--   Ledger, Ledger/*: credits/credit-ledger.store.ts. Its Lua scripts are functions on a pool, and
--     `redis_ledger` fills the record `LedgerStore`. Pools, Settlement and Closing are about any history of
--     one pool.
--   Targets, Targets/Collected: common/utils.ts, the URLs of a body and the private hosts.
--   Proxy, Proxy/*: proxy/proxy.service.ts. Planning has `authenticate` and `buildPlan`, Calls has
--     `proxyCloud` and `proxySelfHosted`, Routing has the stages of `handle` from `dispatch` on,
--     which is `route`; Runs, Fallbacks, Stages, Counts, Once, Safety, Modes and Rotation are about
--     the calls that `route` makes. Headers and Sanitizing are about `sanitizeHeaders`.
--
--   RateLimits, RateLimits/*: common/rate-limit-counter.ts, with a heap of buckets, and in Middleware
--     common/rate-limit.middleware.ts and the query that stores a flush. History is any order of
--     requests, flushes and timers, and Kept is about which buckets stay in use; Draining, Drained and Shutdown are about `drain`.
--   Reads, Reads/*: a cache in front of the database with the reads under way, as both
--     api-keys/api-keys.service.ts and settings/settings.service.ts have it. World is the database
--     with readers and writers; what a call may return is in Fresh, Calls and Acknowledged.
--   ApiKeys, ApiKeys/*: api-keys/api-keys.service.ts. The table is a list of rows.
--   Crypto, Crypto/*: common/crypto.ts, over a record `Cipher`.
--   Settings, Settings/*: settings/. Settings itself is runtime-settings.ts, CloudKeys and Loading
--     cloud-keys.ts, Service settings.service.ts, and Update, Entries, Fields, Stored and SavedKeys
--     the method `update` of settings.controller.ts.
--   Alerts, Alerts/*: alerts/alert.service.ts. Evaluate is `evaluate`, over the checks of Checks and
--     `apply` of Apply; Log is what the sent messages say, and Steps, History and Notified are about
--     any sequence of evaluations.
--
-- State is passed explicitly; a method that runs without an `await` is one step. The clock is an
-- argument of each operation (`time` in Proxy, by the number of upstream calls made). A promise
-- that the source awaits is answered at once, except in Breaker/System, Credits/Limits,
-- Credits/Refresh, RateLimits and Reads, where other calls may come between. An evaluation of the
-- alerts is one step, since the source skips one that overlaps.
--
-- Loops recurse on their lists. The scanner's inner loop has fuel 2 and the rotation over the Cloud
-- keys has one round more than there are keys, since a key is not tried twice. The scanner's
-- skipping loop has as much fuel as the chunk has bytes and one more. `drain` makes the three passes of
-- the source.
--
-- Parameters: what an upstream answers (`fetch`), `Math.random` (`pick`, below the number it is
-- given), the HMAC of a key (`key_id`), `randomUUID` (new names), `new URL`, `Date.parse`,
-- AES-GCM with base64url (`Cipher`), SHA-256, `JSON.parse` and `JSON.stringify`, `String` of a number
-- and `Number` of a text, what Telegram answers, and what a query of PostgreSQL comes to.
-- Texts are lists of code units with ASCII letters; numbers of JSON are integers, and credits are
-- natural numbers. Sentences for people (reasons, errors) are constructors or plain texts.
--
-- Not modelled: the HTTP server and the sending of responses, PostgreSQL and the services that mostly
-- query it (audit, cron, the lists for the admin), metrics, sessions, the configuration's schema,
-- connecting to Redis and its timeouts, and the admin interface in apps/admin. Several instances of the
-- gateway share the database: another instance sees a changed key or setting when its cached copy
-- expires. The share of fallbacks is rounded without the errors of floating-point numbers.
pub mod Prelude
pub mod Common
pub mod Breaker
pub mod Policy
pub mod Cache
pub mod Scanner
pub mod Credits
pub mod Ledger
pub mod Reads
pub mod RateLimits
pub mod ApiKeys
pub mod Crypto
pub mod Settings
pub mod Alerts
pub mod Targets
pub mod Proxy
