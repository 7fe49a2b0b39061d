-- ===== src/Messaging.antt =====
-- The workers on queues and tables (internal/infrastructure/messaging).
pub mod OutboxWorker
pub mod Consumer
pub mod ReferenceWorker
