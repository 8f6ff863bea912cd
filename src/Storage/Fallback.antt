-- ===== src/Storage/Fallback.antt =====
-- modules/storage/fallback-object-storage.ts: `createFallbackObjectStorage`.
pub mod Refines
use datamaster.Prelude.{Bool, true, false, Option, none, some, String, if◌then◌else◌}
use datamaster.Storage.Encryption.{Result, ok, throw}
use datamaster.Storage.Connector.{StoredObject}
use datamaster.Storage.Contract.{ObjectStorage}

-- The stores of both, and what `ensureSynced` remembers.
pub record Both (P F M : Type 0) : Type 0 where
  pub primary : P
  pub fallback : F
  pub memo : M

-- `Promise.all` of two calls.
abbrev pub both_done : Result (Unit {0}) → Result (Unit {0}) → Result (Unit {0})
both_done (throw e) r = throw e
both_done (ok _) r = r

module _ {Bytes M : Type 0} (primary fallback : ObjectStorage Bytes)
    (ensure_synced : Option (
      Both primary.Store fallback.Store M
      → Both primary.Store fallback.Store M × Result (Unit {0}))) where
  abbrev Stores : Type 0
  Stores = Both primary.Store fallback.Store M

  -- A sync that fails is logged.
  unfoldable pub ready : Both primary.Store fallback.Store M → Both primary.Store fallback.Store M
  ready s = elim ensure_synced [ none ↦ s | some sync ↦ (sync s).0 ]

  unfoldable pub put : String → Bytes → String → Stores → Stores × Result StoredObject
  put key bytes type s =
      let s' = ready s in
      let (p, result) = primary.put key bytes type s'.primary in (record s' { primary = p }, result)

  abbrev pub in_fallback : {A : Type 0} → Stores → fallback.Store × A → Stores × A
  in_fallback s (f, result) = (record s { fallback = f }, result)

  unfoldable pub found_in_primary :
      String
      → Stores
      → primary.Store × Result (Option (Bytes × StoredObject))
      → Stores × Result (Option (Bytes × StoredObject))
  found_in_primary key s (p, throw e) = (record s { primary = p }, throw e)
  found_in_primary key s (p, ok (some found)) = (record s { primary = p }, ok (some found))
  found_in_primary key s (p, ok none) =
      in_fallback (record s { primary = p }) (fallback.get key s.fallback)

  unfoldable pub get : String → Stores → Stores × Result (Option (Bytes × StoredObject))
  unfolding found_in_primary
  get key s = let s' = ready s in found_in_primary key s' (primary.get key s'.primary)

  unfoldable pub exists_in_primary :
      String → Stores → primary.Store × Result Bool → Stores × Result Bool
  exists_in_primary key s (p, throw e) = (record s { primary = p }, throw e)
  exists_in_primary key s (p, ok true) = (record s { primary = p }, ok true)
  exists_in_primary key s (p, ok false) =
      in_fallback (record s { primary = p }) (fallback.exists key s.fallback)

  unfoldable pub exists : String → Stores → Stores × Result Bool
  unfolding exists_in_primary
  exists key s = let s' = ready s in exists_in_primary key s' (primary.exists key s'.primary)

  unfoldable pub delete : String → Stores → Stores × Result (Unit {0})
  delete key s =
      let s' = ready s in
      let (p, r) = primary.delete key s'.primary in
      let (f, r') = fallback.delete key s'.fallback in
      (record s' { primary = p; fallback = f }, both_done r r')

  abbrev pub create_fallback_object_storage : ObjectStorage Bytes
  create_fallback_object_storage = record {
    Store = Both primary.Store fallback.Store M;
    put = put;
    get = get;
    delete = delete;
    exists = exists;
  }
