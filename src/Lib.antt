-- ===== src/Lib.antt =====
-- easyhooks: a service that takes webhooks of many tenants, queues them in Redis Streams, processes
-- them in a worker and hands them to the tenants' WebSocket subscribers. The Go services of
-- go-api/ are modelled; paths are from the repository's root.
--
-- The parts and their files:
--   Prelude           numbers, Go's integers (`wrap64`), byte strings, Boolean tests, lists.
--   Runtime           what the code runs on. `Errors`: Go's errors as data, wrapped ones included.
--                     `Events`: the metrics of go-api/internal/observability/metrics.go, the
--                     commands of the Redis client and what they carry. `Env`: every operation
--                     that is not in the repository (Redis, clock, context, randomness), as a
--                     record of functions on a world of any type. `Exec`: an action takes the
--                     world and the log of events, newest first, and gives a result and both
--                     again. `Exec/Keeps`: rules for what actions keep. `Fake`: a Redis in memory,
--                     at which the theorems are applied.
--   Config            go-api/internal/config/config.go: the settings, the profiles' defaults and
--                     `Load`, over the result of parsing the environment.
--   Streams/Queue     go-api/internal/streams/queue.go: publishing, reading, acknowledging.
--   Streams/Monitor   go-api/internal/streams/monitor.go: the backlog of the consumer group and
--                     the decision to shed load, with hysteresis.
--   Service/Envelope  the fields of an entry, of go-api/internal/service/processor.go.
--   Service/Processor the rest of that file: the idempotency lock, attempts, backoff and the
--                     stream of failed events. `Steps` has rules for its actions.
--   Service/Streams   go-api/internal/service/streams.go: publishing to a tenant's stream, and
--                     reading its history.
--   Service/Fanout    go-api/internal/service/fanout.go: a tenant's subscribers. Each critical
--                     section of its lock is one operation; `Reach` has their interleavings.
--                     `Manager` has the map from the tenants.
--   Service/Tail      the loop of that file that follows a tenant's stream, and where it reads on.
--   Service/Tenant    go-api/internal/service/tenant.go and go-api/internal/handler/admin.go: the
--                     creation of a tenant with its credentials.
--   Security          go-api/internal/security/security.go: secrets, webhook signatures, tokens.
--   Middleware        go-api/internal/middleware/auth.go and go-api/internal/redisstore/admin.go:
--                     the checks of tenants and of the administrator before a handler.
--   Http              requests and responses as the handlers see them, and `strings.TrimSpace`.
--   Handler/Webhooks  go-api/internal/handler/webhooks.go: the ingestion of a webhook. `Arrival`
--                     follows one on to its tenant's stream.
--   Handler/Socket    go-api/internal/handler/tokens.go, and go-api/internal/handler/ws.go from the
--                     path to the end of the history. `Live` has what comes behind it: the
--                     forwarding of live events, the gauge of the connections; `Goroutines` the
--                     three goroutines of a connection, in any order.
--   Middleware/Requests  go-api/internal/middleware/metrics.go: the metrics of requests, with the
--                     paths of the routes normalised. `Writer` has the writer that keeps the status.
--   Metrics           the collectors of go-api/internal/observability/metrics.go.
--   Redis             go-api/internal/redis/redis.go: the connection and INFO memory.
--   Tracing           go-api/internal/observability/tracing.go: the start of the tracing.
--   Api               the routes of go-api/cmd/api/main.go, with go-api/internal/handler/health.go.
--   Boot              the rest of that file: the start of the server and its use of memory.
--                     `Monitor` has the loop that watches the memory of Redis.
--   Worker            go-api/cmd/worker/main.go: the loop that reads, processes, acknowledges.
--                     `Start` has the start of the process, `Main` the whole of it; `Ledger` and
--                     `Stops` are about many rounds of the loop.
--
-- A webhook passes `Middleware.tenant_auth`, is refused or appended by `Handler/Webhooks`, which
-- asks `Streams/Monitor` and uses `Streams/Queue`. The worker reads with `Streams/Queue`, gives
-- each entry to `Service/Processor`, whose handler publishes with `Service/Streams`; a failed event
-- goes back through `Streams/Queue` to the stream of failed events. `Service/Fanout` gives out what
-- is published.
--
-- An operation of the code is the definition of its name in snake case; a method takes its receiver
-- as an argument. Go's int and int64 are both 64 bits wide. An `int64` conversion of a float64 that
-- is out of range is what the platform does, so it is an operation of `Env`; the product that
-- `backoffDuration` takes in float64 is exact for a base below 2^53, which every setting of use is.
--
-- Loops: the attempts of an entry are structural on the rounds left, which the setting gives; the
-- monitor's loop is a fold over the signals that its `select` takes, the tail's a fold over the
-- replies to its reads; the worker's loop runs for a number of rounds, and `Worker/Stops` says how
-- many are enough for its end. The forwarding to a WebSocket and the loop that reads from it run
-- for a number of turns. `TrimSpace` makes as many steps as there are bytes;
-- `Http/Spaces/Enough` is about their number.
--
-- Not modelled: logs, except as the results of the checks of memory; the spans of tracing, the
-- sampling rate of the tracing; Prometheus, chi, CORS and the HTTP server; what a ping of a
-- WebSocket holds, and its live events without the fan-out, beyond their steps in
-- `Handler/Socket/Goroutines`; signals, which are the end of the context.
-- The reader of a fan-out is the loop of `Service/Fanout/Reader` where it is alone at the lock;
-- where others come in between, its events are the offers of `Service/Fanout/Reach`.
--
-- Parameters: HMAC-SHA256, SHA-256, base64, the JSON of a token and bcrypt are the record
-- `Security.Crypto`, the UUID library is `Service.Streams.UuidLib`. `Security.Tokens.Faithful` says
-- that they decode what the code has them encode; `Runtime.Keys.KeyLaws` says how SET, GET, DEL and
-- EXISTS hang together on a server that nobody else writes to, `Worker.Ledger.Ledger` how
-- XREADGROUP notes what it delivers of a stream, `Worker.Stops.Lasts` that a context ends after
-- some number of reads. The libraries of gRPC and OpenTelemetry are `Tracing.TracingLib`, chi's
-- routing and the pages of other handlers are `Api.Rest`. Where a theorem needs one of these it
-- takes it as a hypothesis, and `Security.Fake` and `Runtime.Fake` are instances.
mod Prelude
pub mod Runtime
pub mod Metrics
pub mod Redis
pub mod Tracing
pub mod Config
pub mod Streams
pub mod Service
pub mod Security
pub mod Http
pub mod Handler
pub mod Middleware
pub mod Api
pub mod Boot
pub mod Worker
