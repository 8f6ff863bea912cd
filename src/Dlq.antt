-- ===== src/Dlq.antt =====
-- modules/dlq: the persisted dead-letter queue.
pub mod Entry
pub mod Provider
