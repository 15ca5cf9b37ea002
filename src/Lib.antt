-- ===== src/Lib.antt =====
-- PyFaaS: a platform that runs uploaded Python functions. A FastAPI service (api/) keeps
-- functions, versions, executions and schedules in a SQL database, puts jobs on a Redis queue, and
-- workers (worker/worker.py) take them from it, run them in a sandbox and write the result back.
--
-- The files and the code they model, paths from the repository's root:
--   Models, Models/Values, Models/Errors: the rows and enums of shared/db/models.py, JSON values,
--     and the exceptions of the handlers; Models/Lifecycle: the transition table as a state machine.
--   Session: database sessions of shared/db/session.py. A handler is a state-passing function on
--     a session, which holds the committed database and the one with the session's own writes;
--     `get_db` and `get_db_context` commit at the end or roll back when an exception passes.
--     Session/Keeps has rules by which a handler keeps a property of the database.
--   Session/Reads: handlers that only read. Session/Samples: a small database for the tests.
--   Config: the settings of shared/config.py that the modelled code reads.
--   Routing: shared/execution/version_routing.py. Functions: api/routers/functions.py,
--     with its upload in Functions/Upload and its deletion in Functions/Delete; Functions/Canary,
--     Functions/Numbers and Functions/Removal have the proofs.
--   Validator: shared/security/code_validator.py on syntax trees; Validator/Lists are its deny
--     lists, Validator/Ast the trees, Validator/Trees and Validator/Archives the proofs.
--   Queue: the job queue of shared/queue/redis_client.py, with the retries of `redis_retry`; Queue/Dequeue
--     and Queue/Jobs have the proofs.
--   Lock: `DistributedLock` of the same file; Lock/Held shows that a held lock excludes others.
--   Worker: `_process_job`, one poll (Poll) and the stale recovery of worker/worker.py.
--   Executions: api/routers/executions.py; Executions/Trigger and Executions/Access have the proofs.
--   Scheduler: scheduler/scheduler.py; Scheduler/Firing and Scheduler/Outcomes have the proofs.
--   Schedules: api/routers/schedules.py; Schedules/Found, Schedules/Due and Schedules/Owners have the
--     proofs.
--   Ephemeral: api/routers/ephemeral.py; Ephemeral/Limits has the proofs.
--   Invoke: api/routers/invoke.py; Invoke/Visible has the proofs.
--   Keys: api/routers/keys.py and api/dependencies/api_keys.py; Keys/Revoked and Keys/Created have
--     the proofs.
--   Auth: api/routers/auth.py, api/dependencies/deps.py and shared/security/auth.py; Auth/Tokens and
--     Auth/Access have the proofs.
--   Sandbox: sandbox/k8s_sandbox.py and sandbox/runner.py. Sandbox/Results: what a sandbox answers;
--     Sandbox/Logs: the result line of the runner and how it is read, with its round trip in
--     Sandbox/Logs/RoundTrip; Sandbox/Manifest: the Kubernetes Job, with its memory in
--     Sandbox/Manifest/Memory; Sandbox/Cluster: the Kubernetes client, a parameter;
--     Sandbox/Kubernetes: `execute` and its loop, with the proofs in Sandbox/Kubernetes/Waiting (the
--     loop ends) and Sandbox/Kubernetes/Settled (how `execute` ends).
--   Sandbox/Runner: the program in the container. Runner/Platform: its process and what it calls;
--     Runner/Code: how it gets at the code; Runner/Main: `main`; Runner/Exits: the exit code and the
--     result agree; Runner/Environ, Runner/Still and Runner/Secrets: who sees the credentials.
--     Sandbox/Local: the runner as a subprocess of the worker; Local/Runs: what the worker records.
--   System: the commits of workers, users, the scheduler and the recovery as steps on one database;
--     System/Progress and System/Forward show what every sequence of steps does to an execution;
--     System/Requests has triggering as such a sequence. The commit after a failed enqueue is a step of
--     a row that is still queued.
--
-- Conventions. UUIDs and times are natural numbers (times in microseconds); fresh ids and the clock
-- are arguments. Redis' sorted sets, JSON encoding, the Python parser, the zip reader, the sandbox
-- and the random draw are parameters or arguments; what the code relies on is a field of the
-- parameter's record, and a concrete instance stands in the tests. Queries run on lists
-- of rows, `scalar_one_or_none` raises on two rows. A loop is structural recursion on the list it goes
-- through, but for the attempts of `redis_retry`, which are counted, and the wait for a Kubernetes Job:
-- it runs on fuel, one more than four rounds for each second of the timeout and ten, which suffices
-- since each round sleeps a quarter of a second. The loop that waits for a lock runs on fuel too, one
-- more than ten rounds for each second of its wait (Lock/Waiting).
--
-- A commit is one step: overlapping transactions, connections, failing statements and commands of Redis
-- that raise are not modelled.
--
-- Not modelled: logging and metrics, HTTP parsing and response schemas, the command line client,
-- migrations, the dashboard, the listing endpoints, and the loops around the single steps of a worker
-- and of the scheduler.
pub mod Prelude
pub mod Models
pub mod Session
pub mod Config
pub mod Validator
pub mod Routing
pub mod Functions
pub mod Queue
pub mod Worker
pub mod Executions
pub mod System
pub mod Scheduler
pub mod Keys
pub mod Ephemeral
pub mod Invoke
pub mod Sandbox
pub mod Auth
pub mod Schedules
pub mod Lock
