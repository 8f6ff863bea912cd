-- ===== src/Storage/Connector.antt =====
-- modules/storage/connector.ts: `SeaweedFSObjectStorage`. A stream is the bytes that it yields.
pub mod RoundTrip
use mathlib.Core.Option
use datamaster.Prelude.{
  ℕ, Bool, true, false, Option, none, some, List, [], ◌∷◌, String, String_discrete, is_some, ◌&&◌,
  if◌then◌else◌, ite,
}
use datamaster.JsMap
use datamaster.Storage.Encryption.{
  Helpers, EncryptSettings, symmetric, asymmetric, Env, Metadata, Result, ok, throw, request_failed,
  encrypt_bytes, decrypt_bytes, ◌>>=◌,
}
use datamaster.Storage.Bucket.{Bucket, Stored, Reply, reply, missing, failed}

-- `StoredObject`
pub record StoredObject : Type 0 where
  pub key : String
  pub content_type : String
  pub size : ℕ
  pub checksum : String

-- `StorageEncryptSettings | false | undefined`
pub data EncryptOption : Type 0 where
  off omitted : EncryptOption
  explicit : EncryptSettings → EncryptOption

-- The environment's own setting.
unfoldable pub encrypt_of_env : Env → Option EncryptSettings
encrypt_of_env env = elim (env "SEAWEEDFS_ENCRYPT") [
  | none ↦ none
  | some type ↦
      ite (String_discrete type "symmetric")
        (some (record { kind = symmetric; version = env "SEAWEEDFS_ENCRYPT_VERSION" }))
        (ite (String_discrete type "asymmetric")
          (some (record { kind = asymmetric; version = env "SEAWEEDFS_ENCRYPT_VERSION" })) none)
]

unfoldable pub resolve_encrypt : Env → EncryptOption → Option EncryptSettings
resolve_encrypt env off = none
resolve_encrypt env (explicit settings) = some settings
resolve_encrypt env omitted = encrypt_of_env env

-- What `connectorOptions` passes on as `encrypt`.
abbrev pub connector_encrypt : Option EncryptSettings → EncryptOption
connector_encrypt none = off
connector_encrypt (some settings) = explicit settings

-- What `getMetadata` returns.
pub record ObjectMetadata : Type 0 where
  pub checksum : String
  pub encryption_version : Option String

module _ {Bytes Seed : Type 0} (h : Helpers Bytes Seed) (byte_length : Bytes → ℕ)
    (checksum_of : Bytes → String) (b : Bucket Bytes) (env : Env)
    (encrypt : Option EncryptSettings) where
  open b use {Store, put_object, get_object, head_object, delete_object}

  -- The object that `put` sends: `Object.assign(metadata, encrypted.metadata)`.
  unfoldable pub sealed : Seed → Bytes → String → Result (Stored Bytes)
  sealed seed plaintext content_type = elim encrypt [
    | none ↦ ok (record {
      body = plaintext;
      content_type = some content_type;
      metadata = ("checksum", checksum_of plaintext) ∷ [];
    })
    | some settings ↦ do
      (ciphertext, metadata) ← encrypt_bytes h env seed plaintext settings
      ok (record {
        body = ciphertext;
        content_type = some content_type;
        metadata = ("checksum", checksum_of plaintext) ∷ metadata;
      })
  ]

  abbrev pub described : String → Bytes → String → StoredObject
  described key plaintext content_type = record {
    key = key;
    content_type = content_type;
    size = byte_length plaintext;
    checksum = checksum_of plaintext;
  }

  unfoldable pub put : Seed → String → Bytes → String → Store → Store × Result StoredObject
  put seed key plaintext content_type s = elim (sealed seed plaintext content_type) [
    | throw e ↦ (s, throw e)
    | ok object ↦
        let (s', sent) = put_object key object s in
        (s', if sent then ok (described key plaintext content_type) else throw request_failed)
  ]

  -- The plaintext of an object: decrypted only if this instance encrypts and the object has a
  -- version.
  unfoldable pub opened : Stored Bytes → Result Bytes
  opened object = elim encrypt [
    | none ↦ ok object.body
    | some settings ↦
        if is_some (JsMap.get String_discrete "encryption-version" object.metadata)
        then decrypt_bytes h env object.body settings object.metadata
        else ok object.body
  ]

  unfoldable pub read_object : String → Stored Bytes → Result (Option (Bytes × StoredObject))
  read_object key object = do
    plaintext ← opened object
    ok (
        some (
          plaintext,
          record {
            key = key;
            content_type = Option.get_or object.content_type "application/octet-stream";
            size = byte_length plaintext;
            checksum =
                Option.get_or (JsMap.get String_discrete "checksum" object.metadata)
                  (checksum_of plaintext);
          },
        ))

  -- An object that is there has a body, so that `if (!body)` does not apply.
  unfoldable pub get : String → Store → Result (Option (Bytes × StoredObject))
  get key s = elim (get_object key s) [
    | missing ↦ ok none
    | failed ↦ throw request_failed
    | reply object ↦ read_object key object
  ]

  unfoldable pub delete : String → Store → Store × Result (Unit {0})
  delete key s =
      let (s', sent) = delete_object key s in (s', if sent then ok tt else throw request_failed)

  unfoldable pub exists : String → Store → Result Bool
  exists key s = elim (head_object key s) [
    | missing ↦ ok false
    | failed ↦ throw request_failed
    | reply _ ↦ ok true
  ]

  abbrev pub metadata_of : Stored Bytes → ObjectMetadata
  metadata_of object = record {
    checksum = Option.get_or (JsMap.get String_discrete "checksum" object.metadata) "";
    encryption_version = JsMap.get String_discrete "encryption-version" object.metadata;
  }

  unfoldable pub get_metadata : String → Store → Result (Option ObjectMetadata)
  get_metadata key s = elim (head_object key s) [
    | missing ↦ ok none
    | failed ↦ throw request_failed
    | reply object ↦ ok (some (metadata_of object))
  ]
