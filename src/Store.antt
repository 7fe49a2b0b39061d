-- ===== src/Store.antt =====
-- internal/infrastructure/postgres/store.go: the database as its tables, and each statement of the
-- store as a function on them. A transaction runs alone, from the tables that it finds, and its
-- effect is kept if and only if it returns no error (`WithinTransaction`). The unique keys of the
-- migrations are checked where rows are written, since the store turns their violation into
-- `ErrConflict`.
pub mod Tables
pub mod Wallets
pub mod Transactions
pub mod Ledger
pub mod Books
pub mod Inbox
pub mod Outbox
