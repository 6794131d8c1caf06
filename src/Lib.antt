-- ===== src/Lib.antt =====
-- Two domains of AgentCraft, and the review of what is published in it. The task domain: tasks that run an expert's rounds in containers, their
-- quotas, and the accounts that must agree with them. The account domain: how a user's account is made,
-- verified, signed in to and deleted.
--
-- The program. A user's requests (backend/v2/task_service.py) create a task, freeze its input, send
-- messages, and abort, complete or delete it. The dispatcher (backend/v2/task_dispatcher.py) claims
-- queued rounds, takes back rounds whose lease has expired, and sweeps old tasks. The executor
-- (backend/v2/task_executor.py) runs a claimed round and settles it behind the round's lease. All of
-- them write the same tables in transactions of one owner (backend/v2/runtime.py), follow the state
-- machine of backend/v2/task_state.py, and give back what a task holds by backend/v2/task_release.py.
-- Three accounts go together: the reservations of a task, the counters of its user with the platform's
-- storage, and the platform's slots.
--
-- The account domain works on tables of its own. An invitation makes an account
-- (backend/v2/invitation_service.py), a link by mail verifies it (verification_service.py) or resets its
-- password (password_service.py), a login opens a session (login_service.py, session_service.py), and a
-- request for deletion waits fourteen days (deletion_service.py). All of these count their attempts in
-- rate_limit.py, store their answers in idempotency.py, and send their mails through outbox.py.
--
-- The files.
--   Model: the word lists and rows of backend/v2/models/tasking.py and models/catalog.py, the database
--     as a record of tables, and transactions: functions from a database to a value with a database, or
--     an exception, which rolls back.
--   Table: the statements, with the owner policies and the unique indexes that they meet.
--   State, Release, Settings, Frames: task_state.py, task_release.py, config.py, and the frames that a
--     transaction hands to its caller for publication.
--   Service, Dispatcher, Executor: one function for each request or transaction, named as in the
--     source, divided where the source has branches; loops run over whatever a scan has returned.
--   Files: backend/v2/task_file_service.py, uploads and their limits.
--   Provider: what backend/v2/provider_service.py does to the tasks of a provider that is revoked or gets
--     a new key; Charged and Storage, what becomes of the storage accounts.
--   Reviews: Rows, the tables of experts and skills in backend/v2/models/content.py; approval and rejection
--     of a revision by backend/v2/review_service.py; Finding, Pointers and Decisions, what
--     they do to the pointers; Stale, a review that is overtaken.
--   Streams: backend/v2/task_streams.py, the registry of live subscribers.
--   Logic: Hoare triples for transactions. Ledger: the agreement of the accounts, and each transaction's
--     part in it. System: requests, dispatcher loops and executor transactions as one
--     type of actions, and sequences of them.
--   Accounts: Rows, the tables of the account domain; Service, a request as a function from a world to an
--     outcome with a world, in which each transaction commits or rolls back on its own; Primitives, the
--     code from outside; a file for each service, named after it (Tokens and Users hold the statements
--     that several share); Changes and Steps, the relations that every statement keeps; Actions, all
--     services as one type of actions, and sequences of them.
--   Examples: concrete runs.
--
-- The choices. An id is a number, a time is in seconds; counters are natural numbers, and where the
-- source subtracts it guards the subtraction, as the model does (but for Provider.drop_active). Recursion is structural throughout,
-- so there is no fuel. Committed transactions form a sequence, since each locks the row it decides on;
-- the advisory lock of creation is implied by this. What comes from outside is an argument: the ids that
-- are drawn, the clock, the manifest's digest, the catalogue, the answers of the container probe, and
-- the key version that a provider resolves to.
--
-- A review reads its revision, waits for the lock of its expert or skill, and reads again; what is committed
-- between is a function from a store to a store, whatever it is. SHA-256 of a content's canonical JSON and
-- the strip of a reason are fields of Reviews.Rows.Primitives, and the ids in skill_refs are well-formed.
--
-- In the account domain an opaque value (a token, a digest, a password, an address) is a number, and a
-- request takes place at one time. Hashing, HMAC, Argon2, TOTP, the cipher and the check of an address are
-- fields of Primitives; what is drawn at random is an argument, and so is the transport of a mail. A text
-- that the source checks against a closed list (a scope, a purpose, a status) is a closed type, so the
-- ValueError of an unknown one does not arise. TERMINATE_TASKS_HOOK is an argument of a deletion's request,
-- and where it matters it is assumed to leave the tables of the account domain alone, as
-- terminate_tasks_hook does, which writes to the task domain's tables only.
--
-- Not modelled: HTTP, containers, prompts, files on disk, authoring, reports and administration, the legacy
-- interface and the frontend; the attributes of cookies, the hash of a request, and the texts of mails.
-- Three transactions on the task domain's tables are not among the actions of System. terminate_tasks_hook
-- (Executor.Terminate) and fail_unstarted_tasks (Provider), which a revocation or a new key of a provider
-- runs, are modelled on their own; the second refunds no storage, so the accounts do not agree after it.
-- register_output of backend/v2/task_artifacts.py, which charges and refunds the storage of artifacts, is not
-- modelled, nor is the rest of provider_service.py.
-- Calls of the rate limit follow one another; the source's lock is on the scope with the whole set of
-- subjects, so that calls whose sets differ and overlap may run at once. Payload fields
-- that no decision reads (token usage, texts of errors) are left out.
pub mod Reviews
pub mod Prelude
pub mod Model
pub mod State
pub mod Table
pub mod Release
pub mod Logic
pub mod Settings
pub mod Frames
pub mod Service
pub mod Dispatcher
pub mod Executor
pub mod Ledger
pub mod System
pub mod Examples
pub mod Streams
pub mod Accounts
pub mod Files
pub mod Provider
