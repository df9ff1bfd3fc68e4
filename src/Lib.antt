-- ===== src/Lib.antt =====
-- A verification library for the Bengali text-to-speech service: a job-queue gateway in TypeScript
-- (gateway/src) in front of speech workers (worker/src/worker). A client registers, makes API keys,
-- submits Bengali text, follows the job by polling, by its history or by an event stream, and fetches
-- the recording. Postgres holds users, keys and jobs, Redis the token buckets, BullMQ the job queue,
-- object storage the recordings.
--
-- Parts and files:
--   Base (Tests, Lists, Int): Boolean tests, lists, integers over the native numbers.
--   Text (Laws, Decimal): JavaScript strings as lists of UTF-16 code units, white space, trim, code
--     points, decimals.
--   Errors (Codes, Answers): gateway/src/lib/errors.ts (DomainError, RENDERERS as to_rendering,
--     isDomainError, errorHandler) and gateway/src/lib/run-effect.ts. What code throws is a value of
--     Thrown, what a promise ends with a Result, what an Effect ends with an Exit.
--   Http (Checks): gateway/src/lib/validate.ts (requireParam, validate).
--   Schema: the rows of gateway/prisma/schema.prisma. Config (Schema, Load): the settings of
--     gateway/src/config.ts, its schema (config_schema), loadConfig, and what the constructors of the
--     clients are given. Schema has the schema library (Zod) as a parameter, with the documented meaning
--     of the schema's fields (ZodLaw).
--   Deps (Prisma, Clients, Crypto, Action, Retry): the clients, which are code from elsewhere: records
--     of calls over an abstract state, with their documented laws as records of their own (JobTable,
--     KeyTable, RetryLaw). Action has the state of a handler (World), its monad, and inversion lemmas.
--   TtsText (Counts, Verdict): gateway/src/lib/tts-text.ts.
--   RateLimit (Balance, Throughput): gateway/src/lib/rate-limit.ts, the Lua script TAKE_TOKEN as
--     take_token.
--   Queue (Depth), Storage (Attempts): gateway/src/lib/queue.ts and gateway/src/lib/storage.ts.
--   Jobs: gateway/src/routes/jobs.ts. Shared has what the routes share; Submit is POST /v1/tts (Gates,
--     Transaction, Insertion, HandOver, Rows, Cap, Cap.Places, Cap.Burst, Replay, Admission, Held, Twice, Overshoot),
--     History is GET /v1/jobs (Cursor, Walk, Moving), Read is GET /v1/jobs/:id and its audio (Isolation,
--     Audio, OwnRows), Stream is the event stream with the hub of gateway/src/lib/sse.ts (Frames,
--     Overlap).
--   ApiKeys, Auth (Bearer, Basic): gateway/src/lib/api-keys.ts and gateway/src/middleware/auth.ts.
--   Accounts (Revocation): gateway/src/routes/auth.ts, keys.ts and me.ts.
--   Worker (Terminal): worker/src/worker/db.py, the workers' writes to the table of jobs;
--     Worker.Processor (Rows, Settling, Served): worker/src/worker/processor.py,
--     one delivery of a job (process) and the listener for failures without a delivery
--     (record_bypassed_failure); Worker.Lifecycle (Single, Shown, Heard) joins the gateway and the
--     worker: a job from its submission to what its user is shown and served. Worker.Settings:
--     worker/src/worker/config.py; Worker.Start (Order, Agreement, Ready): worker/src/worker/main.py,
--     run as run_worker, with create_s3 of storage.py (create_worker_s3) and create_engine of engines;
--     Agreement and Ready set it beside a gateway that reads the same environment.
--   Health (Ready): gateway/src/routes/health.ts. Metrics (Scrapes, Gauge): gateway/src/lib/metrics.ts.
--   App (Routes, Routes.Shapes, Layers, Ids, Cardinality, Guard, Keyed, Accepted):
--     gateway/src/app.ts, createApp as serve: the body parser, the request id, the timer, the
--     routers in order with their guards, the error handler. Routes joins the handlers of the other
--     modules to their patterns.
--   Server (Runs, Boot, Clean, Deadline): gateway/src/server.ts and gateway/src/lib/shutdown.ts, the
--     boot, and the process as a state machine from a signal to its exit.
--   LoadTest (Client, Reading, Seeding, Outcomes, Depth, Drain): load/tts-load.js, a client: setup,
--     submit (burst_submit) and teardown, with queueDepth (load_queue_depth).
--   Tests: clients in memory, tests, and the theorems at concrete inputs.
--
-- How the code is modelled: a handler is a function from the state of all clients to a result and the
-- next state, so what was done before a throw stays done. Each call of a client is one step. The
-- transaction of a submission is a list of statements (gates) and an insert: submit runs them in order,
-- and Jobs.Submit.Cap lets those of many submissions interleave, the advisory lock of a user being with
-- one transaction until it ends. An event stream is a state machine over ticks, answers, closes and
-- shutdowns, in any order. A bucket's balance is counted exactly, in parts of 1/60000 token, and the
-- Bengali share is an exact fraction, where the code has doubles: at a balance within a rounding of a
-- whole token the script can decide otherwise. Times are milliseconds in ℕ; a
-- difference of clocks is an integer.
--
-- The process of the gateway is a state machine too: its events are signals, what connections do, the
-- answers that a cleanup waits for, a timer and the passing of time. Time stops at a timer that is due:
-- the event loop is taken to be free for it; and the clients that a cleanup has still to close are taken
-- to keep the process alive until then, since the timer by itself does not. A worker's
-- delivery is a function from the table of jobs and the uploaded objects to the next ones; the queue's
-- redelivery (deliver) is a client of it, which gives a job that raised to a worker again, and what
-- else happens to the table and the objects before each delivery is an argument. The start of a worker
-- is a sequence of calls that ends at the first exception, with the list of what it has done so far;
-- both processes read one environment. A router of the framework answers OPTIONS by itself, where it has
-- a route for the target (options_routers).
--
-- Fuel: walk, a client of the history and not code of the gateway, gets one unit for each page, and
-- one more than the history has jobs. The drain of the load test gets 301 units: each of its rounds
-- pauses for two seconds, and it has ten minutes. Nothing else runs on fuel: the retries have the
-- bounds of their schedules (6 for the bucket at boot, 2 for reads).
--
-- Not modelled: logging, the registry of metrics and its text format, the matching of paths and the
-- parse of bodies by the web framework, the schemas of bodies and queries (parameters), the delays between retries, the
-- rounding of doubles, and the sound that the worker's engines make (their synthesize, in
-- worker/src/worker/engines, is a parameter of a delivery).
pub mod Accounts
pub mod ApiKeys
pub mod App
pub mod Auth
pub mod Base
pub mod Config
pub mod Deps
pub mod Errors
pub mod Health
pub mod Http
pub mod Jobs
pub mod LoadTest
pub mod Metrics
pub mod Queue
pub mod RateLimit
pub mod Schema
pub mod Server
pub mod Storage
pub mod Tests
pub mod Text
pub mod TtsText
pub mod Worker
