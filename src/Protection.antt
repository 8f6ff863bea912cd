-- ===== src/Protection.antt =====
-- utils/protection.ts and modules/database/policies/protection.ts: values that are masked, encrypted
-- or hashed on their way to the database.
pub mod Version
pub mod Values
pub mod RoundTrip
