-- ===== src/Lib.antt =====
-- Verification of mervio: the durable job queue of the analytics service and the worker that runs it.
--
-- The program keeps its jobs in one PostgreSQL table. Sessions of an organization put jobs in it, and
-- workers claim them under a lease, renew the lease while they work, and publish the fate of each
-- attempt. A fencing token, the attempt's number and its holder, decides who may publish. The database
-- checks every write again, by constraints and by a trigger.
--
-- Files, and the code they model:
--   Prelude, Prelude/Tests, Prelude/Lists: shared names, Boolean tests and lists.
--   Error: src/mervio/errors.py and src/mervio/persistence/errors.py, with results as values.
--   Json, Json/Dump, Json/Stored: the documents that a job carries, the size of their `json.dumps`, and
--     which of them jsonb takes.
--   Tenancy: roles, permissions and `TenantSession.transaction` of src/mervio/persistence/tenancy.py.
--   Database: the tables that the operations use, sessions (src/mervio/persistence/service.py), and the
--     function `app_service_authorized` of migrations/versions/0007_service_identity.py.
--   Jobs: src/mervio/persistence/jobs.py, and the table of migrations/versions/0004_jobs.py and
--     0006_job_leases.py under src/mervio/persistence. Record, Token, Payload and Schedule hold the data
--     and the pure functions; Guard holds the constraints and the trigger; Queue, Attempt and Recovery
--     hold the operations, one definition for each function of jobs.py under its name. Machine is the
--     abstract life of a job, which Refinement shows them to implement. The other modules of Jobs are
--     named for what they prove.
--   Dispatch: src/mervio/persistence/dispatch.py, with its theorems in Served, Rounds and Idle.
--   Members: `add_member` and `remove_member` of src/mervio/persistence/tenancy.py.
--   Services: the authorizations of src/mervio/persistence/service.py, with their theorems in Effects.
--   Delegation: `delegated_session` of src/mervio/persistence/service.py.
--   Provider, Explanation: provider.py and service.py of src/mervio/llm, with their theorems in
--     Provider/Bounds and Explanation/Survival.
--   Stores, Connections: src/mervio/persistence/stores.py, with their theorems in Stores/Owned and
--     Connections/Revoking.
--   Periods: src/mervio/analytics/periods.py, with the calendar in Calendar and the theorems in Meeting
--     and Series.
--   Worker: src/mervio/workers. Lifecycle models lifecycle.py, Lease models lease.py with its theorems
--     in Renewing and Deadline, Retention models retention.py, Failures models errors.py and
--     src/mervio/persistence/retry.py with Classification, and Families the rest of retry.py.
--     Publication models `_publish` of worker.py, with its theorems in Trying, and Rotation `claim`
--     for a dispatcher, with its theorem in Turns. Traces models `_audit` and what the database checks of
--     an event, with its theorems in Traced, and Recovering `recover_stale`.
--   Audit: src/mervio/persistence/audit.py, with the policy of migrations/versions/0005_audit.py;
--     Purging and Listing hold its theorems.
--   Process: src/mervio/workers/runtime.py, with `_connect` in Connecting, `_loop` in Looping and `run`
--     in Running; Forcing and Keeping hold what its steps keep, Exits, Patience and Leaving its theorems.
--   Health: src/mervio/observability/health.py, with `HealthReporter` in Reporter and `read_health` in
--     Reading; Judged, Outage and Published hold the theorems.
--   Jobs/Sample, Jobs/Tests, Jobs/AttemptTests, DelegationTests, Dispatch/Tests,
--     Jobs/RefusalTests, Members/Tests, Services/Tests, Worker/Tests, Worker/PublicationTests,
--     Worker/TraceTests, Process/Tests, Health/Tests, Audit/Tests,
--     Provider/Tests, Explanation/Tests, Stores/Tests, Connections/Tests, Periods/Tests: the theorems at concrete inputs.
--
-- How the code is read. A transaction is a function from the database to a result: an error carries no
-- database, which is the rollback. An UPDATE goes through every row that its WHERE selects, in the
-- order of trigger, constraints, write. The clock is an argument of each operation: the start of the
-- transaction, and a later reading by the statement and by the trigger. Rows that other transactions
-- have locked are an argument too, a test that FOR UPDATE SKIP LOCKED obeys. UUIDs and instants are
-- numbers. Hooks, which write the audit trail inside the transaction, are arguments of the queue; Worker/Traces
-- defines those of the worker. `str.strip` and the
-- redaction of error texts are arguments with their documented behaviour as named laws. The lock of the
-- lease keeper and of the life cycle makes each of their steps atomic, so a run is a list of steps. The
-- process takes a whole call by another thread, a signal's or a timer's, as one step, which may stand
-- between any two statements of its main thread that the script of a run has a place for.
-- The loops go over lists, but for that of `_publish`: it takes fuel, a bound on its tries, and one try
-- for each tenth of a second until the deadline, and one more, is enough. The loops of the process go
-- over the list of their turns, and say that they go on where it ends; that of the connection has ended
-- once there are more turns than half seconds in its timeout.
--
-- Not modelled: reads for display (`list_jobs`, `queue_statistics`, `explain_claim`),
-- logging and its redaction, the handlers that do the work of a job, ingestion, the statistics, reports, the
-- context and the validation of the language model layer, the command line and the administration tools.
pub mod Prelude
pub mod Error
pub mod Health
pub mod Process
pub mod Json
pub mod Tenancy
pub mod Database
pub mod Jobs
pub mod Worker
pub mod Dispatch
pub mod Delegation
pub mod DelegationTests
pub mod Services
pub mod Members
pub mod Audit
pub mod Periods
pub mod Connections
pub mod Stores
pub mod Provider
pub mod Explanation
