-- ===== src/Cache.antt =====
-- The caches: the local in-memory cache, the pipeline of writes to Redis, and the provider of both.
pub mod Qlru
pub mod Scheduler
pub mod Provider
pub mod Retries
