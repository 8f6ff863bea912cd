-- ===== src/Seeders/Rotate.antt =====
-- providers/mongo/utils/seeders.ts: the seeders `seedByIdIfMissing`, `seedManyByIdIfMissing` and
-- `seedRotateProtectionKeys`, the last with `transformByDataProtection` of
-- schema/transforms/data-policies.ts on plain data.
pub mod Rotated
use datamaster.Prelude.{
  ℕ, Bool, true, false, ◌&&◌, Option, none, some, List, [], ◌∷◌, map, String, if◌then◌else◌,
}
use datamaster.Storage.Encryption.{Env}
use datamaster.Protection.Version.{Value}
use datamaster.Protection.Values.{
  Codec, DataProtection, Accessor, undefined, plain, unmaskable, decryptable, verifiable, unmask,
  decrypt_value, data_protection_getter,
}
use datamaster.Mongo.Shallow.{Json, null, leaf, object, Fields, end, transform_shallow_by_paths}
use datamaster.Mongo.Protect.{protect_by_paths}
use datamaster.Mongo.Read.{Mode, find, cursor, batch, read_documents}
use datamaster.Mongo.BulkWrite.{Driver}
use datamaster.Mongo.Upsert.{
  Entry, insert, update, UpdateOne, End, returned, upsert_by_id, upsert_many_by_id,
}

abbrev pub fields_of : Json → Fields
fields_of null = end
fields_of (leaf v) = end
fields_of (object fields) = fields

-- `has_data_protection` is what `Model._hasDataProtection()` says.
module _ (d : Driver UpdateOne) (update_one : UpdateOne → d.Store → d.Store × Bool)
    (protect : Fields → Option Fields) (has_data_protection : Bool) where
  unfoldable pub seed_by_id_if_missing : Bool → Entry → d.Store → d.Store × End
  unfolding upsert_by_id
  seed_by_id_if_missing use_data_policies data_entry s =
      upsert_by_id d update_one protect (use_data_policies && has_data_protection) insert data_entry
        s

  unfoldable pub seed_many_by_id_if_missing : Bool → List Entry → d.Store → d.Store × End
  unfolding upsert_many_by_id
  seed_many_by_id_if_missing use_data_policies entries s =
      upsert_many_by_id d update_one protect (use_data_policies && has_data_protection) insert
        entries s

-- The documents that are there when the write starts: the mode `find` does not wait for the
-- callbacks.
abbrev pub collected : {D : Type 0} → Mode → (List D → List D) → List D → List D
collected find arrived documents = arrived documents
collected cursor arrived documents = documents
collected batch arrived documents = documents

module _ {S Seed : Type 0} (c : Codec S Seed) (env : Env) (seed : Seed)
    (protection : String → DataProtection S) (paths : List String) where
  -- What the transform answers, by what the getter returned.
  abbrev pub reversed : Bool → Value → Accessor S → Option Json
  reversed exclude_hashed_fields value undefined = some (leaf value)
  reversed exclude_hashed_fields value (plain v) = none
  reversed exclude_hashed_fields value (unmaskable message settings version) =
      some (leaf (unmask c env message settings (some version)))
  reversed exclude_hashed_fields value (decryptable message settings version) =
      some (leaf (decrypt_value c env message settings (some version)))
  reversed true value (verifiable message settings version) = some null
  reversed false value (verifiable message settings version) = none

  unfoldable pub reverse_value : Bool → String → Json → Option Json
  unfolding data_protection_getter unmask decrypt_value
  reverse_value exclude_hashed_fields path null = some null
  reverse_value exclude_hashed_fields path (leaf v) =
      reversed exclude_hashed_fields v (data_protection_getter c env (protection path) v)
  reverse_value exclude_hashed_fields path (object fields) = some (object fields)

  unfoldable pub transform_by_data_protection : Bool → Json → Json
  unfolding reverse_value transform_shallow_by_paths
  transform_by_data_protection exclude_hashed_fields content =
      transform_shallow_by_paths (reverse_value exclude_hashed_fields) paths content

  -- `onDocument`; a document is its id and the other fields, without `updatedAt` and `_id`.
  unfoldable pub on_document : Entry → Entry
  unfolding transform_by_data_protection
  on_document doc = record doc {
    obj = fields_of (transform_by_data_protection true (object doc.obj));
  }

  abbrev pub protected_fields : Option Json → Option Fields
  protected_fields none = none
  protected_fields (some content) = some (fields_of content)

  -- The transform of the listeners of the upserts.
  unfoldable pub protect_fields : Fields → Option Fields
  unfolding protect_by_paths
  protect_fields fields =
      protected_fields (protect_by_paths c env seed protection paths (object fields))

  -- The flag is `Model._hasDataProtection()`.
  unfoldable pub seed_rotate_protection_keys :
      (d : Driver UpdateOne)
      → (UpdateOne → d.Store → d.Store × Bool)
      → (List Entry → List Entry)
      → Bool
      → Mode
      → ℕ
      → ℕ
      → List Entry
      → d.Store
      → d.Store × End
  unfolding read_documents on_document upsert_many_by_id protect_fields
  seed_rotate_protection_keys d update_one arrived false mode batch_size limit found s =
      (s, returned)
  seed_rotate_protection_keys d update_one arrived true mode batch_size limit found s =
      upsert_many_by_id d update_one protect_fields true update
        (map on_document (
          collected mode arrived
            (map (λ call. call.0) (read_documents mode batch_size limit found))))
        s
