-- ===== src/Lib.antt =====
-- Verification of datamaster, the data layer of the Zanix framework: caches, databases, object
-- storage, a dead-letter queue and logs.
--
-- The program's parts, and the files that model them:
--
-- * src/modules/cache/providers/qlru/connector.ts is the in-memory cache `ZanixQLRUConnector`:
--   Cache/Qlru has its `Map` as a list of entries in insertion order (JsMap), its capacity and TTL,
--   and the writes that `setTimeout` defers. `get`, `set`, `has`, `delete`, `clear`, `size`, `keys`
--   and `values` take the time that `Date.now()` reads; `getTTLWithOffset` of the base class, which
--   is random, is a parameter.
-- * src/modules/cache/providers/mod.ts puts that cache in front of a remote one: Cache/Provider has
--   `getCachedOrFetch`, `getCachedOrRevalidate` and `saveToCaches` over the model of the local
--   cache. What others do at each wait is a function on the state, an argument of the calls, and the
--   background refresh is a microtask that waits in the state.
-- * src/modules/cache/providers/redis/connector/scheduler.ts batches writes to Redis: Cache/Scheduler
--   has the state of `RedisPipelineScheduler` and the commands that reached the server. A flush waits
--   for `execWithRetry`, so `flush`, `exec` and `settle` are its parts before, at and after the wait,
--   and an event sequence interleaves them with other calls; the end of a flush says how often its
--   pipeline has been sent, 0 if it failed before.
--   Cache/Retries is one call of `execWithRetry` of retries.ts beside it, as a run of the events that
--   it waits for.
-- * src/modules/database/utils/seeders is modelled by two files. Seeders is processor.ts with the
--   container of src/modules/program/metadata/seeders.ts, Seeders/Run is wrapper.ts and
--   adaptation.ts. A handler is a function of what it changes; the framework calls the seeders one
--   after the other.
--   Seeders/Rotation is the check of the rotation of protection keys, and Seeders/Rotate has the
--   seeders, among them the rotation itself, in
--   src/modules/database/providers/mongo/utils/seeders.ts.
-- * src/modules/observability/bulk-buffer.ts is `BulkBuffer`, Observability/BulkBuffer, with the
--   batches that it hands to its callback.
-- * src/modules/dlq is the dead-letter queue: Dlq/Entry has the documents, Dlq/Provider one function
--   per method of `DLQProvider` over the interface Collection, which states what `create`, `findOne`,
--   `findOneAndUpdate` and `deleteOne` of Mongoose do. Calls of several clients are a sequence of
--   writes; `fail` reads before it writes, and what others write in between is an argument of it.
-- * src/modules/storage keeps objects in an S3 bucket: Storage/Encryption has encryptBytes and
--   decryptBytes over the ciphers of @zanix/helpers, Storage/Connector the methods of
--   `SeaweedFSObjectStorage` over the interface Storage/Bucket of the service, Storage/Rotation the
--   check and the rotation of rotation-core.ts. A walk takes a page per unit of fuel, and as much
--   fuel as there are pages is proved to be enough.
--   Storage/Contract has what `ObjectStorage` of typings/general.ts promises, Storage/Fallback the
--   combination `createFallbackObjectStorage`, and Storage/Sync the copy of local objects that it
--   starts, over a directory that is a tree.
-- * src/modules/database/providers/mongo/processor has the triggers of models and the statics of
--   Mongo models: Triggers/Registry is triggers/registry.ts, its three stores passed on as a record,
--   Triggers/Conditions is triggers/conditions.ts and Triggers/Dispatch triggers/dispatch.ts;
--   Mongo/Pagination is pagination.ts of schema/statics, Mongo/BulkWrite and Mongo/Upsert are its
--   upsert.ts with the listeners of middlewares/data-protection.ts,
--   Mongo/Shallow is transforms/shallow.ts and Mongo/Protect the hooks of
--   middlewares/data-protection.ts with bulk-write.ts, both on trees of plain data (without
--   those for which a walk of the code throws at a text before its last key);
--   Mongo/Filter is transforms/filter.ts, with the meaning of a filter in Mongo/Filter/Meaning;
--   Mongo/Query has the queries that pagination.ts builds, and Mongo/Read the three ways of find.ts
--   to read documents, as the calls of `onDocument` in their order. The
--   retries of a bulk write are a recursion on the attempts that are left, three at the start.
-- * src/utils/protection.ts and src/modules/database/policies/protection.ts protect single fields:
--   Protection/Version has the version in front of a protected value, Protection/Values the keys,
--   `mask`, `unmask`, `encrypt` and `decrypt` (the last two as `encrypt_value` and `decrypt_value`)
--   and the setter and the getter of a field, whose object is a value of Accessor.
-- * src/modules/database/providers/sqlite/connector.ts is the local key-value store: Sqlite/Kv has the
--   methods of `ZanixKVStoreConnector`, Sqlite/Local those of `LocalSQLite` in
--   src/modules/database/utils/sqlite.ts, with the texts of its statements; what SQLite answers to
--   them is the interface Database.
--
-- A dictionary is an association list (JsMap), a date or a duration a natural number of milliseconds,
-- a thrown error a value. Packages and services (Mongoose, Redis, S3, the ciphers, the environment)
-- are parameters with their documented behaviour; the tests have concrete ones.
--
-- Not modelled: the connection handling of the connectors, the registration of models and schemas
-- with Mongoose, the boot of the seeders' tracking
-- model, the access policies and the transforms by them, the request handlers, the access to local files and type declarations.
pub mod Prelude
pub mod JsMap
pub mod Collection
pub mod Cache
pub mod Observability
pub mod Dlq
pub mod Storage
pub mod Triggers
pub mod Mongo
pub mod Seeders
pub mod Protection
pub mod Sqlite
pub mod Tests
