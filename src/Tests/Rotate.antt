-- ===== src/Tests/Rotate.antt =====
-- A rotation of the protection keys: a document whose address is masked under an old version.
use datamaster.Prelude.{◌≡◌, refl, true, List, [], ◌∷◌, map, String_discrete, All}
use datamaster.JsMap
use datamaster.Protection.Version.{one, extract_version, split_version}
use datamaster.Protection.Values.{data_protection_setter, config_of, get_mask_secret}
use datamaster.Mongo.Shallow.{
  leaf, object, end, field, keys_of, is_star, split_dots, without_last_star,
}
use datamaster.Mongo.Shallow.Values.{values_at}
use datamaster.Mongo.Protect
use datamaster.Mongo.Read
use datamaster.Mongo.Read.{batch, read_documents}
use datamaster.Mongo.Upsert
use datamaster.Mongo.Upsert.{Entry, UpdateOne, returned}
use datamaster.Seeders.Rotate
use datamaster.Seeders.Rotate.{collected, seed_rotate_protection_keys}
use datamaster.Seeders.Rotate.Rotated.{HasRenewed, seed_rotate_protection_keys-HasRenewed}
use datamaster.Tests.Mongo.{driver}
use datamaster.Tests.Protection.{codec, env}
use datamaster.Tests.Protect.{policy, policy-configured, name_email}
use datamaster.Tests.Upsert.{no_updates, update_one, update_one-IsApplied}

abbrev members : List Entry
members =
    record {
      id = "a";
      obj =
          field "name" (leaf (one "ada"))
            (field "contact" (object (field "email" (leaf (one "v2:a@x")) end)) end);
    }
    ∷ []

returns :
    (seed_rotate_protection_keys codec env tt policy
      ("contact.email" ∷ [])
      (driver UpdateOne)
      update_one
      (λ docs. docs)
      true
      batch
      10
      0
      members
      no_updates).1
    ≡ returned
unfolding seed_rotate_protection_keys Upsert.upsert_many_by_id Upsert.upsert_by_id
    Upsert.with_data_policy Upsert.protect_entries Upsert.plain_upsert_many_by_id
    Upsert.plain_upsert_by_id Rotate.protect_fields Protect.protect_by_paths Protect.any_of
    Protect.throws data_protection_setter values_at update_one no_updates driver String_discrete
    Read.read_documents Read.read_batch extract_version split_version config_of JsMap.get
    get_mask_secret codec
returns = refl

seed_rotate_protection_keys-HasRenewed_example :
    All
      (HasRenewed codec env tt policy policy-configured [] [] "contact.email"
        ("name" ∷ [])
        (driver UpdateOne)
        update_one
        update_one-IsApplied
        (seed_rotate_protection_keys codec env tt policy
          ("contact.email" ∷ [])
          (driver UpdateOne)
          update_one
          (λ docs. docs)
          true
          batch
          10
          0
          members
          no_updates).0)
      (collected batch (λ docs. docs) (map (λ call. call.0) (read_documents batch 10 0 members)))
unfolding keys_of split_dots without_last_star is_star String_discrete
seed_rotate_protection_keys-HasRenewed_example =
    seed_rotate_protection_keys-HasRenewed codec env tt policy policy-configured [] []
      "contact.email" ("name" ∷ []) (driver UpdateOne) update_one update_one-IsApplied
      (λ docs. docs) batch 10 0 members no_updates refl tt (name_email, tt) returns
