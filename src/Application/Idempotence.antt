-- ===== src/Application/Idempotence.antt =====
-- Sending a wager again to `Process` of internal/application/wager_service.go.
pub mod Steps
pub mod Answers
pub mod Wagers
pub mod Admission
pub mod Inbox
pub mod Known
pub mod Again
pub mod Conflicts
