-- ===== src/Storage/Sync.antt =====
-- modules/storage/sync-local-objects.ts: the copy of local objects into the primary storage. A walk
-- of a directory is a tree.
pub mod View
pub mod Complete
use Prim.Native.String.{◌++◌}
use datamaster.Prelude.{
  ℕ, ◌+◌, Bool, true, false, not, Option, none, some, List, [], ◌∷◌, String, String_discrete, holds,
  ◌||◌, if◌then◌else◌,
}
use mathlib.Core.List
use datamaster.Storage.Encryption.{Result, ok, throw, StorageError, request_failed}
use datamaster.Storage.Connector.{StoredObject}
use datamaster.Storage.Contract.{ObjectStorage}
use datamaster.Storage.Fallback.{Both}

-- What `Deno.readDir` yields: entries, up to the end, an error named NotFound or another error.
mutual
  pub data Entry : Type 0 where
    file : String → Entry
    directory : String → Listing → Entry
    other : String → Entry

  pub data Listing : Type 0 where
    end not_found broken : Listing
    item : Entry → Listing → Listing

unfoldable pub ends_with : String → String → Bool
ends_with String.[] suffix = holds (String_discrete String.[] suffix)
ends_with (String.◌∷◌ c t) suffix =
    let rest = ends_with t suffix in holds (String_discrete (String.◌∷◌ c t) suffix) || rest

-- The keys that a walk yields, and whether it ended by an error.
abbrev pub Walk : Type 0
Walk = List String × Bool

abbrev pub then_walk : Walk → Walk → Walk
then_walk (keys, true) rest = (keys, true)
then_walk (keys, false) (keys', failed) = (List.◌++◌ keys keys', failed)

-- `localObjectKeys`; the path of the directory from the root ends in '/', if it is not empty.
unfoldable mutual
  unfolding ends_with

  pub entry_keys : String → Entry → Walk
  entry_keys path (file name) =
      (if ends_with name ".meta.json" then [] else (path ++ name) ∷ [], false)
  entry_keys path (directory name listing) = local_object_keys (path ++ (name ++ "/")) listing
  entry_keys path (other name) = ([], false)

  pub local_object_keys : String → Listing → Walk
  local_object_keys path end = ([], false)
  local_object_keys path not_found = ([], false)
  local_object_keys path broken = ([], true)
  local_object_keys path (item entry listing) =
      then_walk (entry_keys path entry) (local_object_keys path listing)

module _ {Bytes : Type 0} (primary local : ObjectStorage Bytes) where
  abbrev Stores : Type 0
  Stores = Both primary.Store local.Store Bool

  -- After `primary.put`.
  unfoldable pub migrated : Stores → primary.Store × Result StoredObject → Stores × Result ℕ
  migrated s (p, throw e) = (record s { primary = p }, throw e)
  migrated s (p, ok _) = (record s { primary = p }, ok 1)

  -- After `local.get`.
  unfoldable pub copied :
      String → Stores → local.Store × Result (Option (Bytes × StoredObject)) → Stores × Result ℕ
  unfolding migrated
  copied key s (l, throw e) = (record s { fallback = l }, throw e)
  copied key s (l, ok none) = (record s { fallback = l }, ok 0)
  copied key s (l, ok (some (bytes, object))) =
      migrated (record s { fallback = l }) (primary.put key bytes object.content_type s.primary)

  -- After `primary.exists`.
  unfoldable pub checked : String → Stores → primary.Store × Result Bool → Stores × Result ℕ
  unfolding copied
  checked key s (p, throw e) = (record s { primary = p }, throw e)
  checked key s (p, ok true) = (record s { primary = p }, ok 0)
  checked key s (p, ok false) = copied key (record s { primary = p }) (local.get key s.fallback)

  -- The body of the loop; how many objects it migrated.
  unfoldable pub sync_key : String → Stores → Stores × Result ℕ
  unfolding checked
  sync_key key s = checked key s (primary.exists key s.primary)

  abbrev pub add_migrated : ℕ → Stores × Result ℕ → Stores × Result ℕ
  add_migrated n (s, throw e) = (s, throw e)
  add_migrated n (s, ok m) = (s, ok (n + m))

  abbrev pub and_then : Stores × Result ℕ → (Stores → Stores × Result ℕ) → Stores × Result ℕ
  and_then (s, throw e) next = (s, throw e)
  and_then (s, ok n) next = add_migrated n (next s)

  unfoldable pub sync_keys : List String → Stores → Stores × Result ℕ
  sync_keys [] s = (s, ok 0)
  sync_keys (key ∷ keys) s = and_then (sync_key key s) (sync_keys keys)

  -- The error of a walk comes after the keys before it.
  abbrev pub walk_failed : Bool → Stores × Result ℕ → Stores × Result ℕ
  walk_failed false r = r
  walk_failed true (s, throw e) = (s, throw e)
  walk_failed true (s, ok _) = (s, throw request_failed)

  -- `syncLocalObjects` over the directory of the local store.
  module _ (root : local.Store → Listing) where
    unfoldable pub sync_local_objects : Stores → Stores × Result ℕ
    sync_local_objects s =
        let (keys, failed) = local_object_keys "" (root s.fallback) in
        walk_failed failed (sync_keys keys s)

    abbrev pub remembered : Stores × Result ℕ → Stores × Result (Unit {0})
    remembered (s, throw e) = (record s { memo = false }, throw e)
    remembered (s, ok _) = (record s { memo = true }, ok tt)

    -- `ensureLocalObjectsSynced`: the memo is whether `syncPromise` is there, when no sync runs.
    unfoldable pub ensure_local_objects_synced : Stores → Stores × Result (Unit {0})
    ensure_local_objects_synced s = if s.memo then (s, ok tt) else remembered (sync_local_objects s)
