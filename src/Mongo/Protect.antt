-- ===== src/Mongo/Protect.antt =====
-- middlewares/data-protection.ts and statics/bulk-write.ts: the protection of what is written. A
-- document and the payload of an update are plain data.
pub mod Save
use datamaster.Prelude.{
  Bool, true, false, not, ◌&&◌, ◌||◌, Option, none, some, List, [], ◌∷◌, map, String,
  String_discrete, holds, if◌then◌else◌,
}
use datamaster.Storage.Encryption.{Env}
use datamaster.Protection.Version.{Value, one, many}
use datamaster.Protection.Values.{
  Codec, DataProtection, Processed, nothing, stored, not_configured, data_protection_setter,
}
use datamaster.Mongo.Shallow.{
  Json, null, leaf, object, is_star, split_dots, keys_of, transform_shallow_by_paths,
}
use datamaster.Mongo.Shallow.Values.{values_at}

abbrev pub same_elements : List String → List String → Bool
same_elements [] [] = true
same_elements (t ∷ texts) (u ∷ others) = holds (String_discrete t u) && same_elements texts others
same_elements _ _ = false

-- `isProtectionUnchanged`, with `none` for undefined; two objects are two references.
abbrev pub is_protection_unchanged : Option Json → Option Json → Bool
is_protection_unchanged none none = true
is_protection_unchanged (some null) (some null) = true
is_protection_unchanged (some (leaf (one t))) (some (leaf (one u))) = holds (String_discrete t u)
is_protection_unchanged (some (leaf (many l))) (some (leaf (many m))) = same_elements l m
is_protection_unchanged _ _ = false

-- `path.includes('*')`, of a path whose keys are names or stars.
unfoldable pub any_star : List String → Bool
unfolding is_star
any_star [] = false
any_star (key ∷ keys) = let rest = any_star keys in is_star key || rest

unfoldable pub is_wildcard_path : String → Bool
unfolding any_star split_dots
is_wildcard_path path = any_star (split_dots path)

unfoldable pub select : {A : Type 0} → (A → Bool) → List A → List A
select keep [] = []
select keep (x ∷ xs) = let rest = select keep xs in if keep x then x ∷ rest else rest

unfoldable pub any_of : {A : Type 0} → (A → Bool) → List A → Bool
any_of test [] = false
any_of test (x ∷ xs) = let rest = any_of test xs in test x || rest

-- `this.get(path, undefined, { getters: false })`
abbrev pub first_of : List Json → Option Json
first_of [] = none
first_of (v ∷ values) = some v

unfoldable pub get_path : String → Json → Option Json
unfolding values_at keys_of
get_path path content = first_of (values_at (keys_of path) content)

-- A document of Mongoose: `_protectionSnapshot`, `isModified` and what it holds.
pub record Document : Type 0 where
  pub is_new : Bool
  pub content : Json
  pub is_modified : String → Bool
  pub snapshot : Option (String → Option Json)

-- The payload of a query and its option.
pub record Update : Type 0 where
  pub use_data_policies : Bool
  pub set : Option Json
  pub set_on_insert : Option Json

pub data BulkOp : Type 0 where
  update_one update_many : Option Json → Option Json → BulkOp
  insert_one replace_one : Json → BulkOp
  delete_op : BulkOp

module _ {S Seed : Type 0} (c : Codec S Seed) (env : Env) (seed : Seed)
    (protection : String → DataProtection S) where
  abbrev pub processed_json : Processed → Option Json
  processed_json nothing = none
  processed_json (stored v) = some (leaf v)
  processed_json not_configured = none

  -- `dataProtectionSetterDefinition` at a path, of what it is made for.
  unfoldable pub protect_value : String → Json → Option Json
  unfolding data_protection_setter
  protect_value path null = none
  protect_value path (leaf v) =
      processed_json (data_protection_setter c env seed (protection path) v)
  protect_value path (object fields) = some (object fields)

  -- Whether it throws.
  abbrev pub is_not_configured : Processed → Bool
  is_not_configured nothing = false
  is_not_configured (stored v) = false
  is_not_configured not_configured = true

  unfoldable pub throws : String → Json → Bool
  unfolding data_protection_setter
  throws path null = false
  throws path (leaf v) = is_not_configured (data_protection_setter c env seed (protection path) v)
  throws path (object fields) = false

  -- The transform by the paths; an error at a value that it comes to ends the write (`none`).
  unfoldable pub protect_by_paths : List String → Json → Option Json
  unfolding any_of throws protect_value transform_shallow_by_paths values_at keys_of
  protect_by_paths paths content =
      if any_of (λ path. any_of (throws path) (values_at (keys_of path) content)) paths
      then none
      else some (transform_shallow_by_paths protect_value paths content)

  -- The hook after `init`: a document that was read.
  unfoldable pub init : List String → Json → Document
  unfolding get_path
  init paths content = record {
    is_new = false;
    content = content;
    is_modified = λ path. false;
    snapshot = some (λ path. get_path path content);
  }

  abbrev pub in_snapshot : Option (String → Option Json) → String → Option Json
  in_snapshot none path = none
  in_snapshot (some values) path = values path

  -- Whether a save of a document that is not new protects the path.
  unfoldable pub to_protect : Document → String → Bool
  unfolding get_path is_wildcard_path
  to_protect doc path =
      not (is_wildcard_path path)
      && (doc.is_modified path
          && not
              (is_protection_unchanged (get_path path doc.content) (in_snapshot doc.snapshot path)))

  abbrev pub with_content : Document → Option Json → Option Document
  with_content doc none = none
  with_content doc (some content) = some (record doc { content = content })

  -- The two hooks before `save`.
  unfoldable pub pre_save : Bool → List String → Document → Option Document
  unfolding protect_by_paths select to_protect
  pre_save auto_protect_on_update paths doc =
      if doc.is_new
      then with_content doc (protect_by_paths paths doc.content)
      else (if auto_protect_on_update
          then with_content doc (protect_by_paths (select (to_protect doc) paths) doc.content)
          else some doc)

  -- A payload that may be missing.
  abbrev pub protect_payload : List String → Option Json → Option (Option Json)
  protect_payload paths none = some none
  protect_payload paths (some value) = elim (protect_by_paths paths value) [
    | none ↦ none
    | some v ↦ some (some v)
  ]

  abbrev pub both_payloads :
      Option (Option Json) → Option (Option Json) → Option (Option Json × Option Json)
  both_payloads none second = none
  both_payloads (some first) none = none
  both_payloads (some first) (some second) = some (first, second)

  -- The hook before `updateOne` and `findOneAndUpdate`; the option is not passed on.
  abbrev pub updated : Option (Option Json × Option Json) → Option Update
  updated none = none
  updated (some (first, second)) =
      some (record { use_data_policies = false; set = first; set_on_insert = second })

  unfoldable pub pre_update : List String → Update → Option Update
  unfolding protect_by_paths
  pre_update paths update =
      if update.use_data_policies
      then updated (
          both_payloads (protect_payload paths update.set)
            (protect_payload paths update.set_on_insert))
      else some update

  -- `protectOp`
  abbrev pub op_of :
      (Option Json → Option Json → BulkOp) → Option (Option Json × Option Json) → Option BulkOp
  op_of make none = none
  op_of make (some (first, second)) = some (make first second)

  abbrev pub doc_of : (Json → BulkOp) → Option Json → Option BulkOp
  doc_of make none = none
  doc_of make (some v) = some (make v)

  unfoldable pub protect_op : List String → BulkOp → Option BulkOp
  unfolding protect_by_paths
  protect_op paths (update_one set on_insert) =
      op_of update_one (both_payloads (protect_payload paths set) (protect_payload paths on_insert))
  protect_op paths (update_many set on_insert) =
      op_of update_many
        (both_payloads (protect_payload paths set) (protect_payload paths on_insert))
  protect_op paths (insert_one document) = doc_of insert_one (protect_by_paths paths document)
  protect_op paths (replace_one replacement) =
      doc_of replace_one (protect_by_paths paths replacement)
  protect_op paths delete_op = some delete_op

  abbrev pub cons_op : Option BulkOp → Option (List BulkOp) → Option (List BulkOp)
  cons_op none rest = none
  cons_op (some op) none = none
  cons_op (some op) (some ops) = some (op ∷ ops)

  unfoldable pub protect_ops : List String → List BulkOp → Option (List BulkOp)
  unfolding protect_op
  protect_ops paths [] = some []
  protect_ops paths (op ∷ ops) = cons_op (protect_op paths op) (protect_ops paths ops)

  -- `protectedBulkWrite`: what reaches the `bulkWrite` of Mongoose.
  unfoldable pub protected_bulk_write : Bool → List String → List BulkOp → Option (List BulkOp)
  unfolding protect_ops
  protected_bulk_write false paths writes = some writes
  protected_bulk_write true [] writes = some writes
  protected_bulk_write true (path ∷ paths) writes = protect_ops (path ∷ paths) writes
