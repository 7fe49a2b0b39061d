-- ===== src/Application/WagerService.antt =====
-- internal/application/wager_service.go: processing a wager, resolving a pending reference, and
-- recording that this failed. `transaction` and `wallet` are pointers there; here each step returns
-- the new values. Metrics, logs and spans are left out.
pub mod Backoff
pub mod Settle
pub mod Process
pub mod Pending
pub mod References
pub mod Atomic
