-- ===== src/Lib.antt =====
-- DuckLauncher: a coordinator that keeps workers and queries in PostgreSQL, gives pending queries to
-- workers with room, dispatches them over HTTP, and takes them back from workers that are gone. Users
-- are known by a session cookie; they submit and cancel queries and keep SQL sheets. All state that
-- the parts share is in the database, so each part is a function from the database to its answer and
-- the new database, and a history of the system is a list of calls in the order of their commits.
--
-- Files, and the code that each models (paths from the repository's root):
--   Base, Table            shared names and lemmas; the SQL statements on a table as a list of rows
--   Db                     ducklauncher/db/migrations.sql: the rows of each table, and the channel of
--                          NOTIFY as the list of what was sent
--   Models, Text           ducklauncher/models.py: request models; the text functions that are used
--   Config                 ducklauncher/config.py: the init scripts, from the file to the statements; the
--                          settings of the coordinator (Settings)
--   Cli                    ducklauncher/cli.py: what the commands hand to the settings
--   Queries.Notify         ducklauncher/db/notify.py: notify_query_status
--   Queries.Workers        ducklauncher/db/queries.py: register, heartbeat, ready, shutdown, lists
--   Queries.Life           the same file: create, read, complete, cancel, revert a query
--   Queries.Claim          the same file: _WORKER_FOR_QUERY_SQL and the claims
--   Queries.Stale          the same file: mark_worker_unreachable, sweep_stale_workers
--   Claiming               which query and worker a claim takes, and the limits that it keeps; claims
--                          whose transactions overlap (Overlap)
--   Lifecycle              the state machine of a query (Phase), the calls as data (Calls), and what
--                          each call does to the tables (Edits, Steps, Effects, Valid, Refinement)
--   Recovery               what the two ways of taking queries back do to each query
--   Scheduler              ducklauncher/coordinator/scheduler.py: dispatch_query,
--                          schedule_pending_queries, scheduler_loop (Loop)
--   Accounts               ducklauncher/db/users.py, ducklauncher/db/sessions.py,
--                          ducklauncher/coordinator/middleware.py, ducklauncher/coordinator/auth.py;
--                          the cookies and the sign-in's client are in Cookies
--   Coordinator            ducklauncher/apps/coordinator.py, ducklauncher/db/pool.py, the listener of
--                          ducklauncher/coordinator/events.py: the start, the service and the end
--   Sheets                 ducklauncher/db/sheets.py
--   Routes                 ducklauncher/coordinator/routes.py: the handlers of queries, sheets, workers
--                          and the catalog, with their models
--   Events                 ducklauncher/coordinator/events.py: QueryEventHub; query_events of the routes;
--                          both in one run (Live)
--   Worker.Executor        ducklauncher/worker/duckdb.py: the pool, the active queries, execute and cancel
--   Worker.Threads         the same file: the parts of execute as steps of threads, between which cancel
--                          comes; what they keep (Conserved), and a cancellation that is late (Interrupts)
--   Worker.Catalog         the same file: introspect_catalog; Worker.Dict is a dict of Python
--   Worker.Handlers        ducklauncher/worker/routes.py; with the coordinator's side of a dispatch
--                          (Dispatches) and of a report (Reports)
--   Worker.Registration    ducklauncher/worker/registration.py, and the id, the storage and the sizes of a
--                          worker in ducklauncher/config.py; the loop over the attempts (Attempts)
--   Worker.Metrics         collect_metrics of the same file, from the lines of /proc/meminfo
--   Worker.Startup         ducklauncher/apps/worker.py: the start of a worker; its end is in
--                          Worker.Lifespan
--   System                 ducklauncher/worker/routes.py, ducklauncher/coordinator/scheduler.py and the
--                          calls on the database, interleaved: a worker process with its tasks (Nodes),
--                          the steps of the whole (Steps) and what they do to the database (Calls); the
--                          bound of a worker (Limits), the texts and results of queries (Texts,
--                          Explained, Kept, Traced, Provenance), the way without losses (Progress), lost
--                          answers and reports (Twice, Lost), a refusal that is taken for a loss
--                          (Refusal), and a query's places where nothing is lost (Calm, Waiting,
--                          Placed, Answering, Executing, Once)
--   Tests                  the theorems at concrete inputs, and runs of the definitions
--
-- Conventions. A clock is a number of microseconds, a uuid a natural number, a column of integers ℤ,
-- and cpu_usage the bit pattern of its double, since no test reads it. Ids that are drawn and clocks
-- that are read are arguments. Rows that ORDER BY leaves tied keep the order of the table. Where the
-- code tests `last_heartbeat_at < utcnow - stale`, the model adds `stale` on the other side, as a
-- natural number has no negative difference. FOR UPDATE SKIP LOCKED reads an argument, the queries
-- that other transactions hold. Each function of ducklauncher/db is one transaction, which is run as
-- one step, but for the claims of Claiming.Overlap; a function that raises changes nothing.
--
-- Other tasks. A handler that waits lets other tasks commit: `meanwhile` of the scheduler and of
-- cancel_query, `after_create` and `after_claim` of submit_query are what they do, any function or any
-- list of calls. HTTP clients and the OIDC client are arguments too. The scheduler's loop runs on the
-- rounds that are left, max_batch at most as in the code, and the polls of a cancellation on the 20 of
-- the code, so neither bound is the model's own.
--
-- The whole system. A Step of System.Steps is one commit of the database, one arrival or loss of a
-- message, or one move of a task of a worker. The steps come in any order; dispatches, answers and
-- reports can be lost, a dispatch that was given up can still arrive, and a process can end and start
-- at any time. A dispatch to a worker's endpoint reaches the process of that worker id, and only the
-- tasks of workers report completions. The log of executions is kept for the theorems only.
--
-- A worker's own side. A connection of the pool is a number, and what DuckDB makes of a query, whether
-- a reconnect of it raises, and which rows it puts on a page of a result are arguments, as are the
-- environment, the files that are read, and a request's way to the coordinator.
-- The registration runs on the attempts that are left, 30 as in the code.
--
-- Not modelled: the tasks that trigger_schedule and submit_query start, beyond what they run; the
-- doubles of a worker's load; the JSON and the frames of SSE; how pydantic and click read settings and
-- options, and what pydantic refuses; how FastAPI and uvicorn mount and serve the applications.
pub mod Base
pub mod Table
pub mod Text
pub mod Db
pub mod Models
pub mod Queries
pub mod Claiming
pub mod Lifecycle
pub mod Recovery
pub mod Scheduler
pub mod Accounts
pub mod Sheets
pub mod Routes
pub mod Events
pub mod Config
pub mod Worker
pub mod Cli
pub mod Coordinator
pub mod System
mod Tests
