-- ===== src/Seeders/Rotation.antt =====
-- providers/mongo/utils/seeders.ts: `checkProtectionRotationStatus`. A document gives the value of its
-- property of a name, `none` for undefined and null.
pub mod Counts
use datamaster.Prelude.{
  ℕ, ◌+◌, Bool, true, false, not, ◌&&◌, ◌||◌, Option, none, some, List, [], ◌∷◌, String,
  String_discrete, holds, if◌then◌else◌,
}
use datamaster.Protection.Version.{Value, extract_version}
use datamaster.Protection.Values.{
  DataProtection, Strategy, masked, encrypted, hashed, Config, config_of,
}
use datamaster.Mongo.Read.{Mode, read_documents}

pub record PathStatus : Type 0 where
  pub total : ℕ
  pub current : ℕ
  pub outdated : ℕ

abbrev pub nothing_yet : PathStatus
nothing_yet = record { total = 0; current = 0; outdated = 0 }

-- `path.includes('*')`
unfoldable pub includes_wildcard : String → Bool
includes_wildcard String.[] = false
includes_wildcard (String.◌∷◌ c text) =
    let rest = includes_wildcard text in
    holds (String_discrete (String.◌∷◌ c String.[]) "*") || rest

-- A checked path, its active version and its counts.
pub record Row : Type 0 where
  pub path : String
  pub active : String
  pub status : PathStatus

-- The strategy of a path, and whether it is another than `hash`.
abbrev pub not_hash : {S : Type 0} → Option (Config S) → Bool
not_hash none = true
not_hash (some config) = elim config.strategy [ masked ↦ true | encrypted ↦ true | hashed ↦ false ]

unfoldable pub is_checkable : {S : Type 0} → String × DataProtection S → Bool
unfolding includes_wildcard config_of
is_checkable (path, p) = not (includes_wildcard path) && not_hash (config_of p p.active_version)

unfoldable pub checkable_paths : {S : Type 0} → List (String × DataProtection S) → List Row
unfolding is_checkable
checkable_paths [] = []
checkable_paths ((path, p) ∷ paths) =
    let rest = checkable_paths paths in
    if is_checkable (path, p)
    then record { path = path; active = p.active_version; status = nothing_yet } ∷ rest
    else rest

abbrev pub add_current : PathStatus → PathStatus
add_current s = record { total = s.total + 1; current = s.current + 1; outdated = s.outdated }

abbrev pub add_outdated : PathStatus → PathStatus
add_outdated s = record { total = s.total + 1; current = s.current; outdated = s.outdated + 1 }

-- One path of a document; `none` is the error of `extractVersion`.
abbrev pub judged : String → PathStatus → Option (Value × String) → Option PathStatus
judged active s none = none
judged active s (some (message, version)) =
    some (if holds (String_discrete version active) then add_current s else add_outdated s)

abbrev pub counted : String → PathStatus → Option Value → Option PathStatus
counted active s none = some s
counted active s (some raw) = judged active s (extract_version raw)

abbrev pub cons_row : Row → Option PathStatus → Option (List Row) → Option (List Row)
cons_row r none rest = none
cons_row r (some s) none = none
cons_row r (some s) (some rows) = some (record r { status = s } ∷ rows)

abbrev pub then_rows : Option (List Row) → (List Row → Option (List Row)) → Option (List Row)
then_rows none next = none
then_rows (some rows) next = next rows

module _ {D : Type 0} (property : D → String → Option Value) where
  -- `onDocument`
  unfoldable pub on_document : D → List Row → Option (List Row)
  on_document doc [] = some []
  on_document doc (r ∷ rows) =
      let rest = on_document doc rows in
      cons_row r (counted r.active r.status (property doc r.path)) rest

  unfoldable pub on_documents : List (D × ℕ) → List Row → Option (List Row)
  unfolding on_document
  on_documents [] rows = some rows
  on_documents ((doc, number) ∷ docs) rows =
      then_rows (on_document doc rows) (λ counts. on_documents docs counts)

  -- `if (!checkablePaths.length) return {}`
  unfoldable pub check_paths : List (D × ℕ) → List Row → Option (List Row)
  unfolding on_documents
  check_paths docs [] = some []
  check_paths docs (row ∷ rows) = on_documents docs (row ∷ rows)

  -- The model's data protection, `none` without one, and the paths of it.
  unfoldable pub check_protection_rotation_status :
      {S : Type 0}
      → Option (List (String × DataProtection S))
      → Mode
      → ℕ
      → ℕ
      → List D
      → Option (List Row)
  unfolding checkable_paths check_paths read_documents
  check_protection_rotation_status none mode batch_size limit found = some []
  check_protection_rotation_status (some paths) mode batch_size limit found =
      check_paths (read_documents mode batch_size limit found) (checkable_paths paths)
