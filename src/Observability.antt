-- ===== src/Observability.antt =====
-- modules/observability: the buffered writes of logs.
pub mod BulkBuffer
