-- ===== src/Mongo.antt =====
-- modules/database/providers/mongo: the statics of a Mongo model.
pub mod Pagination
pub mod BulkWrite
pub mod Query
pub mod Read
pub mod Filter
pub mod Shallow
pub mod Protect
pub mod Upsert
