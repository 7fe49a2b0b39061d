-- ===== src/Application.antt =====
-- The use cases (internal/application).
pub mod Contracts
pub mod Events
pub mod Environment
pub mod WagerService
pub mod WalletService
pub mod QueryService
pub mod Bookkeeping
pub mod Idempotence
