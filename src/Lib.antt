-- ===== src/Lib.antt =====
-- Axiomify, a TypeScript web framework: a verification library for its core packages.
--
-- The program is a set of packages around `packages/core` (router, dispatcher, validation). Adapters
-- hand it requests; plugins such as the response cache, the rate limiter and the job scheduler keep
-- state of their own behind small store interfaces. The files here model these parts:
--
-- * Base, Base/Tests, Base/Lists: shared names, Boolean tests on numbers and texts, list lemmas.
-- * JsMap, JsMap/Laws: the JavaScript `Map` with text keys, an association list in insertion order.
--   `keys().next()` is its first key, and a `for … of` loop walks a list of its entries.
-- * CacheStore and its children: packages/cache/src/store.ts. `MemoryCacheStore` is a record of the
--   two maps, the byte counter and the caps; each method is a function of the same name in snake case.
-- * CachePlugin and its children: packages/cache/src/plugin.ts, key.ts and etag.ts over the memory store.
--   The hook is in CachePlugin, what `wrapResponse` keeps in Keeping, entity tags in ETag; Bypassing is
--   about the hook and the store together, Parsing and Revalidating about `If-None-Match`.
-- * RateLimit and its children: packages/rate-limit/src/index.ts. `MemoryStore` in RateLimit, the
--   limiter in RateLimit/Limiter, `RedisStore` in RateLimit/RedisStore. The window of one key is in
--   Window, its history in Tally, Tracking and Counting, the cap on keys in Pruning.
-- * Router and its children: packages/core/src/router.ts. The trie and its operations are in Router;
--   Patterns says which routes a trie holds and when a pattern matches; Matching and Complete are about
--   lookup, Registration about `register`, Serving joins them; Members, Allowed and Refusing are about
--   the answers to a request that no route serves.
-- * Jobs and its children: `MemoryJobStorage` of packages/jobs/src/storage.ts. Choosing is about the
--   filter and the sort, Storing about one acquisition, Purging about `purge`, Calls about sequences of
--   calls, Acquiring and Attempts about how often a job is handed out.
-- * Scheduler and its children: packages/jobs/src/scheduler.ts. `enqueue`, `executeJob` with
--   `handleJobFailure`, and `SagaCoordinator.execute` are in Scheduler; Failing is about an executed job,
--   Compensating about the saga, CronLock about the cron lock, Cron about cron expressions; Workers
--   holds the worker slots of `tick` as a step relation.
-- * The module Hooks: `HookManager` of packages/core/src/lifecycle.ts, the lists of hooks run one after the other.
-- * Dispatcher and its children: packages/core/src/dispatcher.ts and packages/core/src/compiled.ts. The
--   entry points and the pipeline are in Dispatcher, what they are given in Parts, the adapter's response and
--   `ValidatingResponse` in Responses, `handleError` in Answering; Resolving and Hiding are about them.
-- * Texts, Texts/Cutting: operations on texts that several parts share, and their laws.
-- * Cookies and its children: packages/core/src/cookies.ts. Parsing is in Cookies, `serializeCookie` in
--   Printing, signing in Signing; Reading and RoundTrip join printing and parsing,
--   Injecting is about what is printed.
-- * SdkRuntime and its children: packages/sdk-runtime/src. CircuitBreaker, Retry, LruTtlCache and
--   OfflineQueue are the files circuit-breaker.ts, retry.ts, cache.ts and offline.ts; Breaking and
--   Retrying are about the first two.
-- * Sessions and its children: packages/session/src/stores.ts. The memory store is in Sessions, what a
--   write keeps in Evicting, the Redis store in RedisStore.
-- * SessionPlugin and its children: packages/session/src/session.ts over any store with the four methods of
--   `SessionStore`. The state of a request is in SessionPlugin, its operations in Requests, the calls of a
--   handler in Destroying, the options in Building; Attaching, Issuing, Returning and Persisting follow a
--   session from a request to the next, and MemoryStore makes the memory store such a store.
-- * WsRooms and its children: packages/ws/src/room.ts, room-manager.ts and broker.ts. The state of the
--   room manager, the names of rooms and what is sent are in WsRooms, joining, leaving and the life of a
--   client in Clients, the wire protocol and the broadcasts in Wire, the broker in Broker. Membership,
--   Joining, Opening, Leaving and Departing are about who is in a room, Reaching about all calls as a step
--   relation; Admitting and Refusing, with Permission and Relaying, are about the wire protocol, Sending
--   and Echoing about what is sent; Presence is `getPresence`.
-- * Tests and its children: runs on small inputs, and each property at an input.
--
-- Times are natural numbers of milliseconds. Where the source calls `Date.now()` the function takes
-- the time as an argument; a timer that calls a method is a call of that method at a chosen time.
-- Promises that are resolved at once are plain results. The loop of `evict` takes the number of
-- entries as fuel, which is enough because each round drops one. A byte counter that falls is a
-- truncated subtraction; the invariant shows that it never falls below zero.
-- The loop that moves `start` takes the number of timestamps as fuel, and the loop that deletes keys
-- the number of keys: each round moves or deletes one. The Redis client is a parameter, a state and its
-- calls; what is assumed of it, in RateLimit/RedisStore/Recovery, is that it takes one argument shape
-- and rejects the other, and that a script which is not cached is answered by NOSCRIPT.
-- A position in a path is the list of the segments that are left, and a handler is a number.
-- A scheduler tick has one more call of itself as fuel than there are worker slots, since each call takes
-- one. Random ids come from a parameter; the worker ids are taken to differ.
-- The dispatcher, the hooks and user code share one state, and code that is awaited is run to
-- its end before anything else happens, so the model has one request at a time; the runs of a
-- circuit breaker do overlap, as a list of their starts and ends. A retry loop has one more
-- request as fuel than there are retries, the parser of entity tags as many steps as there are
-- characters, and the eviction of sessions as many rounds as there are sessions.
-- Whether a socket takes a call is an argument of the room operations; the listeners of the room manager
-- are taken not to call it back, and a publication not to throw. The methods of the broker may reject, which
-- is a step of its own that comes later, but are taken not to throw at once.
-- The listeners of a scheduler are taken not to throw.
-- The cookies of the session plugin are kept without their attributes.
-- Plain objects are maps in the order of insertion: names that read as integers, which JavaScript lists
-- first, and `__proto__` are not treated apart.
-- encodeURIComponent, decodeURIComponent, the HMAC, the digest of a body, JSON and the schema
-- validator are parameters.
-- Not modelled: timers themselves, the network, and the adapters and tools that only call these parts.
pub mod Base
pub mod JsMap
pub mod CachePlugin
pub mod CacheStore
pub mod Cookies
pub mod Dispatcher
pub mod Hooks
pub mod Jobs
pub mod RateLimit
pub mod Router
pub mod Scheduler
pub mod SdkRuntime
pub mod SessionPlugin
pub mod Sessions
pub mod Texts
pub mod WsRooms
pub mod Tests
