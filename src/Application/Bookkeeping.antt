-- ===== src/Application/Bookkeeping.antt =====
-- Bookkeeping: the steps of the use cases (internal/application), and what they do to the wallets and
-- to the ledger.
pub mod Keeps
pub mod Columns
pub mod Leads
pub mod Rejections
pub mod Movements
pub mod Reading
pub mod Recording
pub mod Wagers
pub mod Process
pub mod Pending
pub mod Openings
pub mod Create
pub mod Reconcile
