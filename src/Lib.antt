-- ===== src/Lib.antt =====
-- llm-gateway: an HTTP gateway in front of several providers of language models. A request passes
-- authentication and the rate limiter, the router picks a provider for its model, and the provider
-- is called through a decorator that retries it and tracks its health.
--
-- The files and the code they model:
-- - Base: shared names, Go's int (two's complement on 64 bits) and time.Time, maps as association
--   lists, decimal notation, and float64 as an interface of its operations (Base/Float).
-- - Model: internal/model. Model/Chat has the API types of chat.go, Model/Errors the provider error
--   of errors.go, and the Go errors that the code tells apart.
-- - Provider: internal/provider. Provider/Health is health.go (RecordSuccess, RecordFailure,
--   IsHealthy, HealthyStrict, Status); Provider/Retry is health_decorator.go (ChatCompletion,
--   ChatCompletionStream, trackStreamHealth, backoffDuration); Provider/Registry is registry.go.
--   Provider/Adapters and its children are the packages openai, anthropic and google below it: New,
--   the translation of requests and responses, the calls, and the loops that read a stream.
-- - Config: internal/config. The types of config.go, applyDefaults and validate of load.go.
-- - Router: internal/router. Router itself is Route of router.go and candidates.go, Router/Build is
--   NewRouter, Router/Strategies and its children are the strategies of internal/router/strategy.
-- - Auth: KeyInfo of internal/auth/auth.go and allow_all.go; Auth/Cached is Authenticate and
--   Invalidate of internal/auth/cached.go, and Auth/Cached/Halves is Authenticate cut in two where it
--   asks the store.
-- - Store: the table of keys of internal/store/api_keys.go, with mapPgError of errors.go.
-- - RateLimit: internal/ratelimit. RateLimit/Script is check.lua and tpm_record.lua, RateLimit/Limiter
--   is limiter.go, RateLimit/History runs the scripts over a history of events.
-- - Middleware: Middleware/Auth is internal/middleware/auth.go; Middleware/Limit (serve and the
--   headers) and Middleware/Capture (usageCaptureWriter) are internal/middleware/ratelimit.go, with
--   the 429 of internal/apierr/apierr.go. Middleware/Bodies is debug_bodies.go, and
--   Middleware/RequestInfo the setters of context.go.
-- - Handler: of internal/handler the error mapping of errors.go and chat.go, the loop of handleStream
--   and the aggregate of health.go; Handler/Chat is HandleChatCompletion of chat.go and models.go,
--   Handler/AdminKeys is Create, Revoke and the generation of keys of admin_keys.go, and
--   Handler/AdminKeys/Aftermath runs Revoke, the store and the cached authenticator together, one
--   step after another.
-- - Metrics: statusClass and ProviderLatencyTotals of internal/metrics/metrics.go.
-- - Gateway: cmd/gateway/main.go, buildProviders, setupLogger and the exit code.
-- - Server: internal/server/server.go, the routes of New with the middleware in front of each.
-- - Examples: concrete instances of the interfaces and concrete runs.
--
-- What is a parameter: the sorted sets of Redis (RateLimit/Redis) with laws on the number of
-- entries that each command leaves, the client that runs the scripts, http.ResponseWriter of
-- net/http with its documented behaviour (Middleware/Writer), the operations of float64, the
-- JSON of bodies and chunks, the client of net/http and the scanner of bufio (Provider/Adapters),
-- the authenticator of the middleware, the LRU caches, what Postgres draws for a new row and whether
-- a statement fails, the clock, the random bytes, and what an upstream answers. A stream's lines carry
-- what the context and the reader of the channel do at each of them.
--
-- Methods that hold a lock are one step. The retry loop runs on the number of rounds that
-- MaxRetries gives, which is its exact bound, so no fuel is chosen. Decimal notation has 20 digits,
-- enough for every 64-bit number. Counters of failures are assumed not to pass 2^63 - 1.
--
-- Not modelled: the last use of a key, the organizations, the migrations and the connections of
-- internal/store, the recording of metrics and the log lines, the configuration loader's merge, and
-- the start and the shutdown of the servers; they are calls of libraries.
pub mod Base
pub mod Model
pub mod Provider
pub mod Config
pub mod Router
pub mod Auth
pub mod RateLimit
pub mod Middleware
pub mod Store
pub mod Metrics
pub mod Gateway
pub mod Server
pub mod Handler
pub mod Examples
