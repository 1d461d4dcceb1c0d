-- ===== src/Lib.antt =====
-- Fluxa takes transaction events over HTTP, queues them, stores each of them once in PostgreSQL,
-- evaluates fraud rules and an ML score on them, and serves events and fraud flags to readers.
-- This library models the Go code of the services and proves what they promise each other.
--
-- The parts, with the files of the repository that each module is about:
-- - Base: lists, options, integers and tables as association lists (helpers).
-- - Domain: internal/domain (events, messages, flags, error classes, Validate).
-- - Config: internal/config/config.go (LoadFromEnv, Validate, DSN).
-- - World: what the services share. The tables of migrations/, the objects of MinIO, the messages
--   published to RabbitMQ, the metrics, and a counter of the calls made so far. A stateful function
--   is a function of the world (the monad M); the environment Env answers the n-th outside call.
-- - Idempotency: internal/idempotency/idempotency.go (CheckAndMark, MarkSuccess, MarkFailed,
--   GetStatus as check_and_mark, mark_success, mark_failed, get_status). Idempotency.Race has the
--   statements of CheckAndMark as steps, for any number of calls for one event at once, with the
--   row lock that PostgreSQL keeps for them.
-- - Store: internal/db/db.go, a definition for each query and insert.
-- - Features: internal/mlfeatures/features.go (Build, Header, Row).
-- - Engine: internal/fraud/engine.go (Evaluate and EvaluateWithScorer, a definition for each rule).
-- - Ports: internal/adapters/minio/client.go and internal/adapters/rabbitmq/client.go.
-- - Processor: internal/processor/processor.go (ProcessMessage and its steps).
-- - Consumer: the loops over the deliveries in services/processor/main.go and
--   services/alert-consumer/main.go, and Consume of internal/adapters/rabbitmq/client.go, which
--   feeds them.
-- - Ingest: services/ingest/main.go (handleIngest, and in Ingest.Routes handleHealth and the
--   multiplexer).
-- - FraudEval: internal/fraudeval/server.go (EvaluateTransaction, LoggingInterceptor).
-- - Query: services/query/main.go (handleGetEvent, handleFraudEvents and its polling loop; in
--   Query.Routes handleHealth and the multiplexer).
-- - Logging: internal/logging/logger.go (With, the levels, log, mergeFields).
-- - Metrics: internal/adapters/prometheus/metrics.go (NewMetrics, IncCounter, ObserveHistogram).
-- - Scorer: internal/adapters/scorer/client.go (Score and the request it sends).
-- - Export: cmd/export-features/main.go (main with the training file and its concurrent
--   workers).
-- - Replay: services/replay/main.go (mapCSVRowToEvent, main with its settings and the loop that
--   sends the rows).
-- - Tracing: internal/observability/tracing.go (endpoint, Init).
-- - Startup: how the services start and end. NewClient of the RabbitMQ and the MinIO adapter and of
--   internal/db/db.go, on the broker, the buckets and the open handles; NewEngine; the wiring of the
--   scorer and its threshold; main of each of the five services up to where it serves, and how it
--   ends: what it closes, and the stop of the gRPC server after a signal (Startup.Shutdown).
-- - System: the services on one world and one queue, as a relation of steps, with the states that
--   they reach, and the write-once ledger that the events table is to its readers. It maps to no
--   code of its own; its steps are the handlers of the other parts.
-- - Examples: runs of the model on concrete data.
--
-- How they interact: handle_ingest publishes the messages that consume_event takes from the queue
-- and hands to process_message; process_message and evaluate_transaction store events and flags
-- that the query service reads; check_and_mark guards process_message against working on an event
-- twice; replay posts its rows to handle_ingest; export builds, over the stored events, the same
-- features that the engine sends to the scorer.
--
-- Faithful to the code and to what it runs on:
-- - Every outside call has one of three outcomes (Reply): done, refused without effect, or
--   unconfirmed, where the effect happened and the caller gets an error, as after a time-out.
-- - Env.others is what other processors do to the key table between the SELECT and the INSERT of
--   check_and_mark; Env.aborts says whether a failed statement aborts its transaction.
-- - Time is microseconds since Go's zero time. A float64 is a multiple of 2^-1074, an infinity or
--   NaN, with the comparisons of the code; a duration saturates as in Go. Strings are UTF-8 text,
--   tables are lists of rows.
-- - An INSERT into events is refused for a text wider than its column and an amount outside the
--   column's range (row_fits), MarkFailed for a reason that is cut inside a character. Texts are
--   taken to hold no NUL character, which PostgreSQL refuses too.
-- - An answer of the query service shows its times in whole seconds, as text (event_answer).
-- - In Idempotency.Race a statement is a step. A SELECT that finds a row locks it, the INSERT that
--   wins and the UPDATE keep it locked, and who wants a locked row has no step until the COMMIT or
--   the rollback; a SELECT of a key whose INSERT is not committed finds nothing.
-- - The claim loop has the three rounds of the code. The polling loop runs over a list of what the
--   others do before each tick and stops when the client goes away, so it needs no fuel.
-- - In System a request or a delivery is one step; what other processors do to the key table in the
--   middle of a claim is Env.others. Which messages the broker puts into the queue is a parameter.
-- - The order in which the workers of export finish is an argument; a Go map is a list of pairs.
-- - SHA-256, JSON, number formatting, the clock, UUIDs, the scorer and the stores' replies are
--   fields of Codec and Env or arguments: a theorem holds for all of them or names what it needs.
-- - In Startup the goroutine of a metrics server listens where it is started, and serving begins
--   with the listener. A call that hands out a handle gives none where it fails. Counted are the
--   connections and channels to RabbitMQ, the pools of the database and the connections to the
--   scorer; the MinIO client holds none between its calls.
--
-- Not modelled: HTTP headers, which log lines the services write, the inside of the HTTP and gRPC
-- servers, OpenTelemetry, generated gRPC code, the Python scorer, and the text of rules.yaml.

pub mod Base
pub mod Domain
pub mod Config
pub mod Logging
pub mod World
pub mod Idempotency
pub mod Store
pub mod Features
pub mod Engine
pub mod Ports
pub mod Processor
pub mod Consumer
pub mod Ingest
pub mod FraudEval
pub mod Query
pub mod System
pub mod Replay
pub mod Metrics
pub mod Tracing
pub mod Startup
pub mod Export
pub mod Scorer
mod Examples
