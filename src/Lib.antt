-- ===== src/Lib.antt =====
-- SoloDock: the core of a deployment console for one Docker host, modelled and verified.
--
-- The program turns an image tag into a deployment: a row of the ledger that moves through phases,
-- with a journal of what is done to Docker, and a health verification of the new container before the
-- release is committed. A poller looks for new images, and signed webhooks wake it. The parts are
-- modelled as follows; every path is from the repository's root.
--
-- - Base: the shared types and lemmas. Tables are lists of rows with the operations of SQL (Base/Table),
--   texts that the code walks are lists of bytes (Base/Text), texts that it only stores are strings,
--   fallible code returns `Result` (Base/Outcome), and `i64` values that may be negative are ℤ (Base/Int).
-- - Database: the tables that the ledger and the poll state store write, as one record, with the
--   enumerations of their columns (src/deploy/ledger.rs, src/registry/poll_state.rs, migrations/).
-- - Deploy/Ledger: `DeploymentLedger` (src/deploy/ledger.rs). Rows has what each statement selects and
--   sets, Transactions the transactions `create`, `transition`, `resolved`, `set_health` and
--   `interrupt_nonterminal`, Journal the four `mark_…` methods, Calls any sequence of calls. The other
--   files are about one call (Change, Extends, Moved, Branches) and about any sequence of calls (Uniqueness,
--   Finality, Effects, Numbering, Audit).
-- - Deploy/Health: `policy_ready`, `HealthResult::recheck` and `HealthVerifier::verify`
--   (src/deploy/health.rs, src/domain/health.rs). Docker, the clock and the shutdown token enter as a
--   list of rounds, each of which says what one pass of the loop observes.
-- - Registry/Reference and Registry/Identity: image references and digests (src/registry/reference.rs),
--   platforms (`Platform` of src/registry/client.rs) and image identities
--   (src/registry/image_identity.rs).
-- - Registry/PollStates: `PollStateStore` (src/registry/poll_state.rs). Rows has the rows, Store the
--   methods but `accept_webhook`, which is in Webhooks, and Calls any sequence of calls.
-- - Docker: the records of src/docker/models.rs and the ownership rules of src/docker/ownership.rs.
-- - Auth: `login`, `change_password`, the throttle and the sessions (src/auth/mod.rs, src/auth/session.rs).
--   Store has the rows, Throttle, Credentials and Sessions the operations.
-- - Retention: the retention policy, and which releases are kept (src/retention.rs).
-- - Webhook/Protocol: `parse_headers` and `verify` (src/webhook/protocol.rs), with Base64, SHA-256 and
--   HMAC as parameters.
-- - Webhook/Rate: `WebhookRateLimiter` (src/webhook/rate.rs).
-- - Mutation/Idempotency: `IdempotencyService` (src/mutation/idempotency.rs, migrations/). Rows has the
--   rows, Operations the claims and their ends, Effects the markers of a container's effect, Gc the
--   collection of old rows, Scheduling the claim that queues a deployment, Recovery the files that an
--   operation may leave, and Calls any sequence of calls of the service that write its table, the queueing
--   of deployments and the collections of old rows included. (The update of a retention policy in
--   src/api/retention.rs, which settles its own row by a statement of its own, is not among them.) A key under an actor, a method and a route is a slot: Slot has the contract of
--   a slot by itself, which is told, with each call, whether the ledger admits a deployment and whether a
--   collection deletes the row of the key; Refinement and Answers compare it with the table, by what
--   Queued, Deletion and Tables say of the calls that write more than the row of a key. The keyed hash,
--   the JSON of a response and the print of a UUID are parameters.
-- - Domain: the validation of an application (src/domain/). Errors, Names, Paths, Ports, Mounts, Binds,
--   Limits, Environment, Files and Networks have the parts, Sorting the sorts by a key, and Draft the
--   composition: `normalize_draft_with_options` (Draft/Normalize) and `verify_config_integrity`
--   (Draft/Integrity). An error has the path and the code of its issue; the message for people is left
--   out. The file system, SHA-256, HMAC and JSON are parameters, and an allowed root is given by the
--   components of its path.
-- - Tests: concrete runs of the code.
--
-- How the parts interact: the ledger writes `poll_states` when a polled deployment fails, in the table
-- that the poll state store owns; a health verification uses the ownership labels and the image
-- identity of the container that it inspects; the claim of a deployment writes its operation and the
-- ledger's deployment in one transaction; a verification takes its deadline from the health policy of a
-- draft; a draft names its image by a reference of Registry/Reference.
--
-- A transaction is a function from the database to the committed database or to an error, on which the
-- database stays as it was: SQLite runs write transactions one after the other. Failures of SQLite
-- itself are left out. A UUID is its 128-bit value. A stored time is the place of its text in the order
-- in which SQLite compares texts; `format_time` and the `uuid` crate are third-party code and are
-- parameters, and so is the hashing of passwords. Auth works on instants, in
-- nanoseconds. `i64` counters are natural numbers, which they cannot leave by the statements modelled.
-- The counters of the rate limiter stay far below the bounds of their machine types.
--
-- The loop of `verify` recurses on the list of rounds, and answers `none` while it goes on after the
-- last of them: each round but the last ends before the deadline and sleeps for a second, so that a list
-- of as many rounds as the deadline has seconds is enough.
--
-- The collection of old operations selects its candidates first and deletes them in a later transaction:
-- `collect` takes any candidates, and the store of that later time.
--
-- Not modelled: the HTTP API, the Docker and registry clients, the files of the application store and
-- of Compose, password hashing, the deployment worker, and the web user interface. The reads that page
-- through deployments and the parsers of rows are left out of the ledger and the store; the key file and
-- the finalization of an unregistered application are left out of the mutations; the reference of a
-- pinned image, the names of an application's resources and its paths are left out of the domain.
pub mod Base
pub mod Database
pub mod Registry
pub mod Docker
pub mod Domain
pub mod Deploy
pub mod Webhook
pub mod Auth
pub mod Mutation
pub mod Retention
pub mod Tests
