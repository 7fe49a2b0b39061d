-- ===== src/Domain.antt =====
-- The domain (internal/domain): money, wallets, ledger entries, wager transactions.
pub mod Time
pub mod Money
pub mod Wallet
pub mod LedgerEntry
pub mod Transaction
