-- ===== src/Storage/Rotation.antt =====
-- modules/storage/rotation-core.ts: `runCheck` and `runRotate`. A progress callback is a list of the
-- reports that it gets.
pub mod Walk
pub mod Balance
pub mod Stored
pub mod Settled
pub mod Writes
pub mod Complete
pub mod Retire
use mathlib.Core.Option
use datamaster.Prelude.{
  ℕ, zero, suc, ◌+◌, Bool, true, false, Option, none, some, List, [], ◌∷◌, ◌++◌, String,
  String_discrete, ◌&&◌, if◌then◌else◌, ite, ◌==◌, length,
}
use datamaster.Storage.Encryption.{
  Helpers, EncryptSettings, Env, Result, ok, throw, StorageError, encryption_disabled,
  recorded_version,
}
use datamaster.Storage.Bucket.{Bucket}
use datamaster.Storage.Connector
use datamaster.Storage.Connector.{ObjectMetadata, put, get, get_metadata}

-- `requireActiveVersion`
unfoldable pub require_active_version : Option EncryptSettings → Result String
require_active_version none = throw encryption_disabled
require_active_version (some settings) = ok (recorded_version settings)

-- A page of `listPage`, with the token of the next one.
pub record Page : Type 0 where
  pub keys : List String
  pub next : Option String

-- `EncryptionRotationStatus`, its counters.
pub record Status : Type 0 where
  pub total_objects : ℕ
  pub on_active_version : ℕ
  pub versions_still_in_use : List String
  pub unencrypted : ℕ

abbrev pub no_objects : Status
no_objects = record {
  total_objects = 0;
  on_active_version = 0;
  versions_still_in_use = [];
  unencrypted = 0;
}

-- `safeToRetireOldKeys`
abbrev pub safe_to_retire_old_keys : Status → Bool
safe_to_retire_old_keys t = length t.versions_still_in_use == 0 && t.unencrypted == 0

-- `Set.prototype.add`
unfoldable pub add_version : String → List String → List String
add_version v [] = v ∷ []
add_version v (w ∷ vs) =
    let rest = add_version v vs in ite (String_discrete v w) (w ∷ vs) (w ∷ rest)

-- How `runCheck` counts an object, by the version of its metadata.
unfoldable pub count_version : String → Option String → Status → Status
count_version active none t = record t { unencrypted = t.unencrypted + 1 }
count_version active (some v) t =
    ite (String_discrete v active) (record t { on_active_version = t.on_active_version + 1 })
      (record t { versions_still_in_use = add_version v t.versions_still_in_use })

-- The body of the loop of `runCheck`.
unfoldable pub count_object : String → Option ObjectMetadata → Status → Status
count_object active none t = record t { total_objects = t.total_objects + 1 }
count_object active (some m) t =
    count_version active m.encryption_version (record t { total_objects = t.total_objects + 1 })

-- What `onProgress` is told: scanned, migrated and the number of failures.
pub record Report : Type 0 where
  pub scanned : ℕ
  pub migrated : ℕ
  pub failures : ℕ

-- `RotationResult`, and the reports so far.
pub record Totals : Type 0 where
  pub scanned : ℕ
  pub migrated : ℕ
  pub skipped : ℕ
  pub failed : List (String × StorageError)
  pub reports : List Report

abbrev pub no_totals : Totals
no_totals = record { scanned = 0; migrated = 0; skipped = 0; failed = []; reports = [] }

-- How the loop of `runRotate` ends for a key.
pub data Outcome : Type 0 where
  migrated skipped : Outcome
  failed : StorageError → Outcome

abbrev pub report : Totals → Totals
report t = record t {
  reports =
      t.reports
      ++ record { scanned = t.scanned; migrated = t.migrated; failures = length t.failed } ∷ [];
}

unfoldable pub count_outcome : String → Outcome → Totals → Totals
count_outcome key migrated t =
    report (record t { scanned = t.scanned + 1; migrated = t.migrated + 1 })
count_outcome key skipped t = report (record t { scanned = t.scanned + 1; skipped = t.skipped + 1 })
count_outcome key (failed e) t =
    report (record t { scanned = t.scanned + 1; failed = t.failed ++ (key, e) ∷ [] })

module _ {Bytes Seed : Type 0} (h : Helpers Bytes Seed) (byte_length : Bytes → ℕ)
    (checksum_of : Bytes → String) (b : Bucket Bytes) (env : Env)
    (encrypt : Option EncryptSettings) where
  open b use {Store}

  -- The write of `runRotate`, once the object was read and its metadata was read again.
  unfoldable pub write_back : Seed → String → Bytes → String → Store → Store × Outcome
  write_back seed key plaintext content_type s =
      let (s', r) = put h byte_length checksum_of b env encrypt seed key plaintext content_type s in
      (s', elim r [ ok _ ↦ migrated | throw e ↦ failed e ])

  -- The check right before the write. `others` is what other clients wrote since the object's
  -- metadata was read.
  unfoldable pub write_if_current :
      Seed → String → ObjectMetadata → Bytes → String → Store → Store × Outcome
  write_if_current seed key before plaintext content_type s =
      elim (get_metadata h byte_length checksum_of b env encrypt key s) [
        | throw e ↦ (s, failed e)
        | ok none ↦ (s, skipped)
        | ok (some still) ↦
            ite (String_discrete still.checksum before.checksum)
              (write_back seed key plaintext content_type s) (s, skipped)
      ]

  unfoldable pub migrate :
      Seed → (Store → Store) → String → ObjectMetadata → Store → Store × Outcome
  migrate seed others key before s = elim (get h byte_length checksum_of b env encrypt key s) [
    | throw e ↦ (s, failed e)
    | ok none ↦ (s, skipped)
    | ok (some (plaintext, object)) ↦
        write_if_current seed key before plaintext object.content_type (others s)
  ]

  -- What happens to an object, by the version of its metadata.
  unfoldable pub rotate_found :
      String
      → Bool
      → Seed
      → (Store → Store)
      → String
      → ObjectMetadata
      → Option String
      → Store
      → Store × Outcome
  rotate_found active dry_run seed others key before none s =
      if dry_run then (s, migrated) else migrate seed others key before s
  rotate_found active dry_run seed others key before (some v) s =
      ite (String_discrete v active) (s, skipped)
        (if dry_run then (s, migrated) else migrate seed others key before s)

  -- The body of the loop of `runRotate`.
  unfoldable pub rotate_key :
      String → Bool → Seed → (Store → Store) → String → Store → Store × Outcome
  rotate_key active dry_run seed others key s =
      elim (get_metadata h byte_length checksum_of b env encrypt key s) [
        | throw e ↦ (s, failed e)
        | ok none ↦ (s, skipped)
        | ok (some before) ↦
            rotate_found active dry_run seed others key before before.encryption_version s
      ]

  -- The loops over the keys of a page.
  unfoldable pub check_keys : String → List String → Store → Status → Result Status
  check_keys active [] s t = ok t
  check_keys active (key ∷ keys) s t =
      elim (get_metadata h byte_length checksum_of b env encrypt key s) [
        | throw e ↦ throw e
        | ok metadata ↦ check_keys active keys s (count_object active metadata t)
      ]

  unfoldable pub rotate_keys :
      String
      → Bool
      → (String → Seed)
      → (String → Store → Store)
      → List String
      → Store
      → Totals
      → Store × Totals
  rotate_keys active dry_run seeds others [] s t = (s, t)
  rotate_keys active dry_run seeds others (key ∷ keys) s t =
      let (s', outcome) = rotate_key active dry_run (seeds key) (others key) key s in
      rotate_keys active dry_run seeds others keys s' (count_outcome key outcome t)

  -- `walkKeys`, with a page per unit of fuel: `none` is a walk that is not over. `list_page` is the
  -- method of the connector with the given prefix and page size.
  unfoldable pub check_pages :
      (Option String → Store → Result Page)
      → String
      → ℕ
      → Option String
      → Store
      → Status
      → Option (Result Status)
  check_pages list_page active zero token s t = none
  check_pages list_page active (suc fuel) token s t = elim (list_page token s) [
    | throw e ↦ some (throw e)
    | ok page ↦ elim (check_keys active page.keys s t) [
      | throw e ↦ some (throw e)
      | ok t' ↦ elim page.next [
        | none ↦ some (ok t')
        | some next ↦
            ite (String_discrete next "") (some (ok t'))
              (check_pages list_page active fuel (some next) s t')
      ]
    ]
  ]

  unfoldable pub rotate_pages :
      (Option String → Store → Result Page)
      → String
      → Bool
      → (String → Seed)
      → (String → Store → Store)
      → ℕ
      → Option String
      → Store
      → Totals
      → Option (Store × Result Totals)
  rotate_pages list_page active dry_run seeds others zero token s t = none
  rotate_pages list_page active dry_run seeds others (suc fuel) token s t =
      elim (list_page token s) [
        | throw e ↦ some (s, throw e)
        | ok page ↦
            let (s', t') = rotate_keys active dry_run seeds others page.keys s t in
            elim page.next [
              | none ↦ some (s', ok t')
              | some next ↦
                  ite (String_discrete next "") (some (s', ok t'))
                    (rotate_pages list_page active dry_run seeds others fuel (some next) s' t')
            ]
      ]

  unfoldable pub run_check :
      (Option String → Store → Result Page) → ℕ → Store → Option (Result Status)
  run_check list_page fuel s = elim (require_active_version encrypt) [
    | throw e ↦ some (throw e)
    | ok active ↦ check_pages list_page active fuel none s no_objects
  ]

  unfoldable pub run_rotate :
      (Option String → Store → Result Page)
      → Bool
      → (String → Seed)
      → (String → Store → Store)
      → ℕ
      → Store
      → Option (Store × Result Totals)
  run_rotate list_page dry_run seeds others fuel s = elim (require_active_version encrypt) [
    | throw e ↦ some (s, throw e)
    | ok active ↦ rotate_pages list_page active dry_run seeds others fuel none s no_totals
  ]
