-- ===== src/Tests/Fallback.antt =====
-- Two object storages in memory, one with the other as its fallback.
use datamaster.Prelude.{
  ◌≡◌, ◌∙◌, refl, inr, sym, ap, false, Bool, Option, none, some, [], ◌∷◌, String, String_discrete,
  is_some, if◌then◌else◌,
}
use datamaster.Storage.Encryption.{ok}
use datamaster.Storage.Connector.{StoredObject}
use datamaster.Storage.Contract.{ObjectStorage, IsObjectStorage, Content, content_of, update}
use datamaster.Storage.Fallback.{Both, create_fallback_object_storage}
use datamaster.Storage.Fallback.Refines.{view}
use datamaster.Storage.Sync.{
  Listing, file, directory, end, item, local_object_keys, sync_keys, sync_local_objects,
  ensure_local_objects_synced, sync_key, checked, copied, migrated,
}
use datamaster.Storage.Sync.View.{contains}
use datamaster.Storage.Sync.Complete.{
  create_fallback_object_storage-ensure_local_objects_synced, ensure_local_objects_synced_complete,
}

abbrev Files : Type 0
Files = String → Option (Content String)

abbrev described : String → Content String → String × StoredObject
described key (bytes, type) =
    (bytes, record { key = key; content_type = type; size = 1; checksum = "sum" })

abbrev found : String → Option (Content String) → Option (String × StoredObject)
found key none = none
found key (some content) = some (described key content)

found_content : (key : String) (o : Option (Content String)) → content_of (found key o) ≡ o
found_content key none = refl
found_content key (some content) = refl

abbrev memory : ObjectStorage String
memory = record {
  Store = Files;
  put = λ key bytes type s. (update key (some (bytes, type)) s, ok (described key (bytes, type)).1);
  get = λ key s. (s, ok (found key (s key)));
  delete = λ key s. (update key none s, ok tt);
  exists = λ key s. (s, ok (is_some (s key)));
}

memory-IsObjectStorage : IsObjectStorage memory (λ s. s)
memory-IsObjectStorage = record {
  get_lem = λ key s o h.
      let same : found key (s key) ≡ o = cc in ap content_of (sym same) ∙ found_content key (s key);
  exists_lem = λ key s b h. cc;
  get_keeps = λ key s j. refl;
  exists_keeps = λ key s j. refl;
  put_lem = λ key bytes type s object h j. refl;
  put_failed_lem = λ key bytes type s e h j. inr refl;
  delete_lem = λ key s h j. refl;
}

-- A file with its metadata beside it, and one in a directory.
abbrev root : Files → Listing
root s =
    item (file "a")
      (item (file "a.meta.json") (item (directory "nested" (item (file "b") end)) end))

abbrev local : Files
local =
    update "a" (some ("local a", "text/plain"))
      (update "nested/b" (some ("local b", "text/plain")) (λ k. none))

abbrev remote : Files
remote = update "a" (some ("remote a", "text/plain")) (λ k. none)

abbrev stores : Both Files Files Bool
stores = record { primary = remote; fallback = local; memo = false }

walk : local_object_keys "" (root local) ≡ ("a" ∷ "nested/b" ∷ [], false)
unfolding local_object_keys String_discrete
walk = refl

create_fallback_object_storage-ensure_local_objects_synced_example :
    IsObjectStorage
      (create_fallback_object_storage memory memory
        (some (ensure_local_objects_synced memory memory root)))
      (view (λ s. s) (λ s. s))
create_fallback_object_storage-ensure_local_objects_synced_example =
    create_fallback_object_storage-ensure_local_objects_synced memory memory (λ s. s) (λ s. s)
      memory-IsObjectStorage memory-IsObjectStorage root

ensure_local_objects_synced_complete_example :
    (let s' = (ensure_local_objects_synced memory memory root stores).0 in
      let (keys, failed) = local_object_keys "" (root local) in
      (failed ≡ false)
      × ((j : String)
          → s'.primary j ≡ (if contains keys j then view (λ s. s) (λ s. s) stores j else remote j))
      × (ensure_local_objects_synced memory memory root s' ≡ (s', ok tt)))
unfolding ensure_local_objects_synced sync_local_objects sync_keys sync_key checked copied migrated
    local_object_keys String_discrete
ensure_local_objects_synced_complete_example =
    ensure_local_objects_synced_complete memory memory (λ s. s) (λ s. s) memory-IsObjectStorage
      memory-IsObjectStorage root stores refl refl
