-- ===== src/Kernel.antt =====
-- packages/shared-kernel/src
pub mod Breaker
pub mod Retry
pub mod Idempotency
pub mod Outbox
