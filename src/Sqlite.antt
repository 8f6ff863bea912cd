-- ===== src/Sqlite.antt =====
-- The local key-value store on SQLite: database/utils/sqlite.ts and database/providers/sqlite.
pub mod Local
pub mod Kv
