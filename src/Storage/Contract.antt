-- ===== src/Storage/Contract.antt =====
-- modules/storage/typings/general.ts: `ObjectStorage`, its operations and what they promise.
use datamaster.Prelude.{◌≡◌, ◌⊎◌, Bool, Option, none, some, String, String_discrete, ite, is_some}
use datamaster.Storage.Encryption.{Result, ok, throw, StorageError}
use datamaster.Storage.Connector.{StoredObject}

-- The operations. A failed one may have changed the store.
pub record ObjectStorage (Bytes : Type 0) : Type 1 where
  pub Store : Type 0
  pub put : String → Bytes → String → Store → Store × Result StoredObject
  pub get : String → Store → Store × Result (Option (Bytes × StoredObject))
  pub delete : String → Store → Store × Result (Unit {0})
  pub exists : String → Store → Store × Result Bool

-- An object without its key: the bytes and the content type.
abbrev pub Content : Type 0 → Type 0
Content Bytes = Bytes × String

abbrev pub content_of : {Bytes : Type 0} → Option (Bytes × StoredObject) → Option (Content Bytes)
content_of none = none
content_of (some (bytes, object)) = some (bytes, object.content_type)

-- The dictionary with one key changed.
abbrev pub update : {A : Type 0} → String → Option A → (String → Option A) → String → Option A
update key value old = λ j. ite (String_discrete key j) value (old j)

-- The promise: the operations read and change a dictionary of contents, each under its key alone. A failed write has happened or not.
pub record IsObjectStorage {Bytes : Type 0} (o : ObjectStorage Bytes)
    (contents : o.Store → String → Option (Content Bytes)) : Type 0 where
  pub get_lem :
      (key : String) (s : o.Store) (found : Option (Bytes × StoredObject))
      → (o.get key s).1 ≡ ok found
      → content_of found ≡ contents s key
  pub exists_lem :
      (key : String) (s : o.Store) (b : Bool)
      → (o.exists key s).1 ≡ ok b
      → b ≡ is_some (contents s key)
  -- A read changes nothing that is read.
  pub get_keeps :
      (key : String) (s : o.Store) (j : String) → contents (o.get key s).0 j ≡ contents s j
  pub exists_keeps :
      (key : String) (s : o.Store) (j : String) → contents (o.exists key s).0 j ≡ contents s j
  pub put_lem :
      (key : String) (bytes : Bytes) (type : String) (s : o.Store) (object : StoredObject)
      → (o.put key bytes type s).1 ≡ ok object
      → (j : String)
      → contents (o.put key bytes type s).0 j ≡ update key (some (bytes, type)) (contents s) j
  pub put_failed_lem :
      (key : String) (bytes : Bytes) (type : String) (s : o.Store) (e : StorageError)
      → (o.put key bytes type s).1 ≡ throw e
      → (j : String)
      → (contents (o.put key bytes type s).0 j ≡ contents s j)
        ⊎ (contents (o.put key bytes type s).0 j ≡ update key (some (bytes, type)) (contents s) j)
  pub delete_lem :
      (key : String) (s : o.Store)
      → (o.delete key s).1 ≡ ok tt
      → (j : String) → contents (o.delete key s).0 j ≡ update key none (contents s) j
