-- ===== src/Lib.antt =====
-- LedgerCore: a double-entry ledger for payments, in Go over Postgres.
--
-- The program has seven layers. internal/money has amounts in minor units and exchange rates.
-- internal/ledger has the entry of a transaction and its validation. internal/store keeps the tables
-- of migrations/001_init.sql and writes them in transactions that are retried. internal/ops makes the
-- entries of transfers, payments, refunds and conversions and posts them through the store, once for
-- an idempotency key. A settlement batch of the store pays merchants out. internal/settle reconciles
-- the cached balances with the journal. internal/api serves all of this over HTTP, and
-- internal/loadgen runs it under load and checks the books.
--
-- Which file models what:
--   Prelude, Prelude/*           lists as tables, integers, int64 arithmetic (Word), Go maps, sorting
--   Errors                       the program's errors, the faults of the database, Go's (T, error)
--   Money/Currency, Text, Major  money.go: currencies, ParseMajor, FormatMajor
--   Money/Rate                   fx.go: Rate.Validate, Rate.Convert
--   Ledger/Entry                 types.go: Leg, Entry, Entry.Validate
--   Store/Schema                 001_init.sql: the rows of the tables and the identity sequences
--   Store/Session                store.go: runInTx, isRetryable
--   Store/Mode                   store.go: the isolation modes, backoff, Reset
--   Store/Posting                postings.go: postEntryTx, PostEntry, PostEntryGuarded
--   Store/Accounts               accounts.go: CreateAccount, EnsureAccount, GetAccount, AccountLedger
--   Store/Payments               payments.go: GetPaymentLegs, RefundedSoFar
--   Store/Idempotency            idempotency.go: PostEntryIdempotentGuarded and what it calls
--   Store/Queries                queries.go: the sums and counts for reports
--   Store/Settlement             settlement.go: RunSettlement
--   Ops, Ops/Exchange            ops.go, fx.go and provision.go of internal/ops
--   Settle/Reconcile             reconcile.go: Reconcile
--   Store/Locks                  the locks of postings and batches, taken by transactions that overlap
--   Store/Books                  the invariants of README.md and 001_init.sql, as records
--   Store/Books/Credited         what a posting adds to the rows of the accounts
--   Ops/Sequence                 calls of the service one after the other
--   Api/Server                   server.go: routes, envelope, error statuses
--   Api/Handlers                 handlers.go: every handler
--   Api/Service                  HTTP requests one after the other
--   Loadgen/Metrics, Checks      metrics.go and checks.go: percentile, itoa, the checks of a run
--   Loadgen/Harness              harness.go: seeding, the storm of transfers, Run
--   Tests                        a small ledger that is run, and the theorems at concrete inputs
-- What the other files are about is in their first lines.
--
-- How the code is modelled. An operation is a function from a session to a result and a session. A
-- session holds the rows and the list of what Postgres will answer to the statements to come, BEGIN
-- and COMMIT included: let it through, fail it with one of the codes that are retried, fail it
-- otherwise, or carry it out and lose the answer. Where a theorem does not say that the database
-- does not fail, it holds for all such lists. pgx and Postgres are that list and the meaning of the
-- SQL statements on the rows; a rollback brings the rows back but not the sequences. SHA-256 and
-- the JSON encoding of a request are a parameter of the operations. int64 arithmetic wraps around,
-- as in Go; a SUM in Postgres is exact, and fails when it does not fit the int64 it is scanned
-- into. Ids are natural numbers, since the sequences give out no others; a negative id in a request
-- stands as the number of its 64 bits, which is no row's either. What encoding/json makes of a body
-- is a parameter of the handlers, and net/http picks the route. The only fuel is
-- maxRetries, which the code has too, and the number itself where its decimal digits are written.
--
-- Of the load harness, the draws of the generators and the order in which workers and monitor come
-- to run are a list of events, and the float64 rank of a percentile is a parameter.
--
-- Not modelled: the reads and writes of transactions that overlap in time, and with them what the
-- isolation modes change (of overlapping transactions only the locks are modelled); the commands
-- (cmd), which are flags, start-up and printing around the rest; opening the connection pool and
-- running the schema file; the clock and what internal/loadgen measures with it; timestamps and the
-- texts of errors.
pub mod Prelude
pub mod Errors
pub mod Money
pub mod Ledger
pub mod Store
pub mod Ops
pub mod Settle
pub mod Api
pub mod Loadgen
pub mod Tests
