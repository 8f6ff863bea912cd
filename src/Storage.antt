-- ===== src/Storage.antt =====
-- modules/storage: objects in an S3 bucket, encrypted with versioned keys, and the rotation of keys.
pub mod Text
pub mod Encryption
pub mod Bucket
pub mod Connector
pub mod Rotation
pub mod Contract
pub mod Fallback
pub mod Sync
