-- ===== src/Tests.antt =====
-- Runs of the models on concrete inputs.
mod Cache
mod Dlq
mod Protection
mod Storage
mod Triggers
mod Mongo
mod Observability
mod ListStore
mod Sqlite
mod Provider
mod Fallback
mod Dispatch
mod Retries
mod Query
mod Read
mod Seeders
mod Status
mod Filter
mod Protect
mod Upsert
mod Rotate
