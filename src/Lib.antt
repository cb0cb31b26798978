-- ===== src/Lib.antt =====
-- Verification of the URL shortener: short codes for long URLs, kept in PostgreSQL, looked up through
-- a Redis cache, created under idempotency keys, and counted by a worker that reads a Redis stream.
--
-- The parts and their files:
--   Common        the shared names: Boolean tests, byte texts, Go's int64, strings and strconv
--   Errors        the sentinels of internal/service/url.go and internal/repository/url_repo.go,
--                 and errors.Is
--   Model         internal/model/url.go
--   World         what surrounds the program: an abstract type of worlds `W` with actions
--                 `W → A × W`, a view of a world, and the clients as records of actions with their
--                 laws: World/Platform (clock, contexts, JSON, counters of internal/metrics/metrics.go),
--                 World/Redis, World/Postgres (the repository's statements),
--                 World/Analytics (the worker's)
--   Repository    internal/repository/url_repo.go: Create, CreateWithCode, SetCode, GetByCode,
--                 DeleteByCode
--   Statistics    internal/repository/stats_repo.go: StatsByURLID
--   Cache         internal/cache/url_cache.go: URLKey, Get, Set, Delete
--   Idempotency   internal/idempotency/store.go: Get, Set, Claim, Release
--   Service       internal/service/base62.go (Base62) and internal/service/url.go: validateCustomCode
--                 (CustomCode), parseExpiry (Expiry), validateLongURL (LongUrl), URLStore (Store),
--                 NewURLService and shortURLFor (UrlService), Resolve, Delete and GetStats (Resolve),
--                 createOne and replay (Create), createIdempotent and Create (Idempotent), and requests
--                 with one key that take turns (Concurrent)
--   Consumer      internal/consumer/consumer.go: EnsureGroup, Run (Run), ProcessOnce, handle, claim, ack,
--                 eventDay; Ledger states what the worker promises, independently of the code
--   RateLimit     internal/middleware/ratelimit.go: RateLimit, middleware, allow, clientIP
--   Recorder      internal/analytics/recorder.go: Push and the loop of run
--   Handler       internal/handler/url.go, health.go: one function per handler; respond.go (Respond)
--   Web           what is used of net/http: requests, the writer with statusWriter of
--                 internal/middleware/logger.go, handlers
--   Middleware    internal/middleware/request_id.go, recover.go, logger.go, instance.go, metrics.go
--   Router        internal/router/router.go: the options, the routes, New; chi as a function with laws
--                 (Mux)
--   Metrics       internal/metrics/metrics.go: the collectors and their registration
--   Config        internal/config/config.go: Load
--   Pool          internal/repository/pool.go: NewPool
--   Programs      cmd/server/main.go, cmd/migrate/main.go (Migrate) and cmd/worker/main.go (Worker)
--   Migrator      internal/repository/migrate.go: Apply and migrationVersion
--   Tests         a small world in which the hypotheses hold, and the theorems applied in it
--
-- The service calls the store through the interface URLStore, which URLRepository implements; the
-- theorems on the service rest on the laws of that interface (Service/Store/Contract), and these are
-- proved of the repository from the laws of the PostgreSQL statements. The handlers render what the
-- service returns; Redirect pushes an event into the recorder's buffer, which the recorder publishes
-- and the consumer counts. The cache and the idempotency store share one Redis prefix. The programs
-- compose the parts: a main loads the configuration, opens the pool, applies the migrations, makes the
-- service and the router, and listens; the worker's main runs the consumer. Go's time is a number of
-- nanoseconds; texts are lists of bytes; a w-bit integer keeps its wrap-around. A run-time panic in
-- the service is the error `runtime_panic`; a panic of a handler is an ending, which the middleware
-- sees.
--
-- Bounds: EncodeBase62 fills a buffer of 11 bytes, which is its fuel, and 62 ^ 11 exceeds 2 ^ 64; the
-- idempotency guard polls 5 times; Consumer.Run takes a number of rounds, and one round for every 32
-- messages is enough to read the stream; all other loops are recursions on their list.
--
-- Parameters, as records of functions: net/url, JSON, the Redis and PostgreSQL clients, the clock,
-- the multiplexer of chi, the handler of promhttp, crypto/rand, the logger.
--
-- Left out: log lines other than those of the middleware, the bodies of HTTP responses; a time-out of
-- a context is an error of the call that it ends; the endless loop of Consumer.Run is modelled for
-- any number of rounds, and that of Recorder.run by its rounds; chi, promhttp, pgxpool and go-redis,
-- which are parameters; the readers of counters in internal/metrics, which only tests call.
mod Common
pub mod Errors
pub mod Model
pub mod World
pub mod Web
pub mod Middleware
pub mod Router
pub mod Metrics
pub mod Config
pub mod Pool
pub mod Programs
pub mod Repository
pub mod Statistics
pub mod Cache
pub mod Idempotency
pub mod Consumer
pub mod Service
pub mod RateLimit
pub mod Recorder
pub mod Migrator
pub mod Handler
pub mod Tests
