-- ===== src/Tests/Status.antt =====
-- The check of the rotation of protection keys on three documents.
use datamaster.Prelude.{
  ℕ, ◌≡◌, refl, Option, none, some, List, [], ◌∷◌, map, String, String_discrete,
}
use datamaster.JsMap
use datamaster.Protection.Version.{Value, one, extract_version, split_version}
use datamaster.Protection.Values.{DataProtection, Strategy, masked, hashed, config_of}
use datamaster.Mongo.Read.{
  cursor, batch, read_documents, read_cursor, read_batch, visit, visit_batch, limited,
}
use datamaster.Seeders.Rotation.{
  checkable_paths, is_checkable, includes_wildcard, check_protection_rotation_status, check_paths,
  on_documents, on_document,
}
use datamaster.Seeders.Rotation.Counts.{tally, check_protection_rotation_status-tally}

abbrev property : Option String → String → Option Value
property none path = none
property (some text) path = some (one text)

abbrev in_version : String → Strategy → DataProtection ℕ
in_version version s = record {
  active_version = version;
  version_configs = (version, record { strategy = s; settings = 0 }) ∷ [];
}

abbrev paths : List (String × DataProtection ℕ)
paths = ("ssn", in_version "v2" masked) ∷ ("pin", in_version "v1" hashed) ∷ []

abbrev documents : List (Option String)
documents = some "v2:a" ∷ none ∷ some "v1:b" ∷ []

ssn_counts :
    check_protection_rotation_status property (some paths) cursor 1000 0 documents
    ≡ some (
        record {
          path = "ssn";
          active = "v2";
          status = record { total = 2; current = 1; outdated = 1 };
        }
        ∷ [])
unfolding check_protection_rotation_status check_paths on_documents on_document checkable_paths
    is_checkable includes_wildcard config_of extract_version split_version read_documents
    read_cursor visit limited JsMap.get String_discrete
ssn_counts = refl

-- A batch of one document is all that is checked.
batch_hides_one :
    check_protection_rotation_status property (some paths) batch 1 0 documents
    ≡ some (
        record {
          path = "ssn";
          active = "v2";
          status = record { total = 1; current = 1; outdated = 0 };
        }
        ∷ [])
unfolding check_protection_rotation_status check_paths on_documents on_document checkable_paths
    is_checkable includes_wildcard config_of extract_version split_version read_documents read_batch
    visit_batch JsMap.get String_discrete
batch_hides_one = refl

check_protection_rotation_status-tally_example :
    check_protection_rotation_status property (some paths) cursor 1000 0 documents
    ≡ some (map (tally property (read_documents cursor 1000 0 documents)) (checkable_paths paths))
unfolding checkable_paths is_checkable includes_wildcard config_of extract_version split_version
    read_documents read_cursor visit limited JsMap.get String_discrete
check_protection_rotation_status-tally_example =
    check_protection_rotation_status-tally property paths cursor 1000 0 documents
      (((one "a", ("v2", refl)), tt), ((tt, tt), (((one "b", ("v1", refl)), tt), tt)))
