-- ===== src/Lib.antt =====
-- Verification of the wagering back end: wallets, their ledgers, and the transactions of providers.
--
-- The program. Providers send wagers (bets, wins, losses, refunds, rollbacks) by HTTP or by messages.
-- A use case (internal/application) runs in one database transaction: it finds out whether the wager
-- is known, locks the wallet, makes a transaction (internal/domain), checks its reference, moves the
-- money, and writes the transaction, the wallet, a ledger entry and outbox events through the store
-- (internal/infrastructure/postgres/store.go). A wager whose reference is not settled yet waits, and
-- a worker tries it again.
--
-- The modules.
-- - Domain.Money (internal/domain/money.go): `Money` with int64 minor units; Text has `Amount`,
--   `ParseMoney` and the JSON form; Arith, Digits and RoundTrip hold theorems.
-- - Domain.Wallet (wallet.go), with Movements for its theorems; Domain.LedgerEntry (ledger.go).
-- - Domain.Transaction (transaction.go), with Rehydrate (`RehydrateWagerTransaction`), Storable (its
--   invariant), Steps and Lifecycle (the transitions as a step relation) and History (sequences).
-- - Store (postgres/store.go): Tables (rows and the database), and one module per table.
-- - Store.Books: the balances of the wallets beside the sums of the ledger; Posting for one update.
-- - Application.Contracts and Events (contracts.go, events.go, ports.go), Environment (what comes from
--   outside), WagerService (wager_service.go, by its stages Settle, Process, Pending, Backoff;
--   References and Atomic for theorems),
--   WalletService (wallet_service.go; Ledger for the pages of a ledger, Cursor for cursor.go, Rows,
--   Filling and Pages for theorems), QueryService (query_service.go).
-- - Application.Bookkeeping: the use cases and the books. Keeps and Leads have the rules for sequences
--   of steps between conditions on the wallets and the ledger, Columns for what no update changes; the
--   other files follow the stages.
-- - Application.Idempotence: a call that is repeated. Steps and Answers are about single steps, Wagers,
--   Inbox and Admission about what a call leaves in the tables, Known and Again about the next call,
--   Conflicts about calls that disagree with it.
-- - Store.Outbox.Leases and Store.Ledger.Listing: the statements of the outbox worker and of the listing
--   of a ledger; Store.Outbox.Candidates, Claims, Reserved and Exclusive for theorems.
-- - Messaging.OutboxWorker (internal/infrastructure/messaging/outbox_worker.go): the workers as a step
--   relation; Delays, Rows, Tracked and Honest (its invariant) and Refines (the mailbox that it implements).
-- - Messaging.Consumer (consumer.go in the same place), with Delays and Delivery for theorems.
-- - Messaging.ReferenceWorker (reference_worker.go), with Rounds for its theorem.
-- - Transport.Auth (internal/infrastructure/auth/auth.go), Transport.Http (the handlers of
--   wagers in internal/transport/httpapi), Wallets and Routes (wallet_handler.go and routes.go in the
--   same place) and Transport.Verified and Isolation for theorems.
-- - Prelude (tests on numbers, integers, 64-bit words, ordered lists) and Errors (errors.go of both packages).
-- - Examples: the theorems at concrete inputs.
--
-- How state and operations correspond. Pointers to a wallet or a transaction become values that each
-- step returns anew. A step of a transaction takes the tables to an error or to a result with new
-- tables; `within_transaction` keeps the new tables or restores the old ones. Texts are strings,
-- printed amounts are lists of bytes. A time is the number of nanoseconds after Go's zero time, so
-- `UTC()` changes nothing; durations are not negative, as the configuration requires. An int64 is an
-- integer, and its operations wrap around (`add64`, `sub64`).
--
-- What is a parameter: the currency codes that golang.org/x/text accepts (`parse_iso`), the validator
-- of commands, the digest of a payload, and what the clock and `uuid.NewString` return in a call; the
-- order of uuids in PostgreSQL, the rows that another transaction holds, and how it shortens a text; the
-- formats of cursors (base64, times, uuids); how JSON and numbers are read and requests are validated;
-- the verifier of tokens. What becomes of a message on its way to the queue is a choice of each step.
--
-- What is not modelled: transactions run one after another, so locks have no effect and
-- `AcquireIdempotencyLock` does nothing; of the constraints of the migrations only the unique keys are
-- checked, so the model accepts more than the database; a commit that fails, whose error
-- `WithinTransaction` returns; the rounding of times by the database, but where a result speaks of it;
-- metrics,
-- logs and spans; `json.Marshal` of events, whose payload is the envelope; the heartbeat and the receive
-- loop of the consumer, the start and stop of the workers. Health checks, the request log,
-- configuration and wiring are left out.
--
-- Bounds: loops of the source become recursion on a list or on a count of rounds that the arguments
-- fix; printed digits recurse on fuel for twenty digits, which is what 2^64 - 1 has; the pages of a
-- ledger are read on fuel, for which one more than the number of its entries is enough.
pub mod Prelude
pub mod Errors
pub mod Domain
pub mod Application
pub mod Store
pub mod Messaging
pub mod Transport
pub mod Examples
