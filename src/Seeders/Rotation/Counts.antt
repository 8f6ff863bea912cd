-- ===== src/Seeders/Rotation/Counts.antt =====
-- What the counts of a check are.
use datamaster.Prelude.{
  arith, ℕ, ◌+◌, ◌≡◌, refl, sym, ap, ◌∙◌, Bool, true, false, not, Option, none, some, List, [], ◌∷◌,
  map, String, String_discrete, holds, if◌then◌else◌, All, All-map,
}
use datamaster.Protection.Version.{Value, extract_version}
use datamaster.Protection.Values.{DataProtection}
use datamaster.Mongo.Read.{Mode, read_documents}
use datamaster.Seeders.Rotation.{
  PathStatus, Row, checkable_paths, add_current, add_outdated, judged, counted, then_rows,
  check_paths, on_document, on_documents, check_protection_rotation_status,
}

same_numbers :
    {s t : PathStatus} → s.total ≡ t.total → s.current ≡ t.current → s.outdated ≡ t.outdated → s ≡ t
same_numbers e f g = ground (arith, e, f, g)

abbrev bit : Bool → ℕ
bit true = 1
bit false = 0

-- How many elements of a list pass a test.
unfoldable pub count : {A : Type 0} → (A → Bool) → List A → ℕ
count test [] = 0
count test (x ∷ xs) = bit (test x) + count test xs

-- The version in front of a value is the given one.
abbrev pub is_version : String → Option (Value × String) → Bool
is_version version none = false
is_version version (some (message, v)) = holds (String_discrete v version)

abbrev pub has_value : Option Value → Bool
has_value none = false
has_value (some raw) = true

abbrev pub is_current : String → Option Value → Bool
is_current active none = false
is_current active (some raw) = is_version active (extract_version raw)

abbrev pub is_outdated : String → Option Value → Bool
is_outdated active none = false
is_outdated active (some raw) = not (is_version active (extract_version raw))

-- `extractVersion` reads the value, if there is one.
abbrev pub IsReadable : Option Value → Type 0
IsReadable none = Unit
IsReadable (some raw) =
    (message : Value) × ((version : String) × (extract_version raw ≡ some (message, version)))

module _ {D : Type 0} (property : D → String → Option Value) where
  -- A row after the documents: what it had, and the documents with a value, with one of the active
  -- version and with one of another version.
  abbrev pub tally : List (D × ℕ) → Row → Row
  tally docs r = record r {
    status = record {
      total = r.status.total + count (λ d. has_value (property d.0 r.path)) docs;
      current = r.status.current + count (λ d. is_current r.active (property d.0 r.path)) docs;
      outdated = r.status.outdated + count (λ d. is_outdated r.active (property d.0 r.path)) docs;
    };
  }

  abbrev with_one : String → PathStatus → Option Value → PathStatus
  with_one active s o = record {
    total = s.total + bit (has_value o);
    current = s.current + bit (is_current active o);
    outdated = s.outdated + bit (is_outdated active o);
  }

  abbrev tally_one : D → Row → Row
  tally_one doc r = record r { status = with_one r.active r.status (property doc r.path) }

  judged-with_one :
      (active : String) (s : PathStatus) (known : Bool)
      → (if known then add_current s else add_outdated s) ≡ record {
        total = s.total + 1;
        current = s.current + bit known;
        outdated = s.outdated + bit (not known);
      }
  judged-with_one active s true = ground arith
  judged-with_one active s false = ground arith

  counted-with_one :
      (active : String) (s : PathStatus) (o : Option Value)
      → IsReadable o
      → counted active s o ≡ some (with_one active s o)
  counted-with_one active s none h =
      ap some (same_numbers (omega arith) (omega arith) (omega arith))
  counted-with_one active s (some raw) (message, (version, e)) =
      ap (judged active s) e
      ∙ ap some (judged-with_one active s (holds (String_discrete version active)))
      ∙ ap
          (λ (read : Option (Value × String)). some (record {
            total = s.total + 1;
            current = s.current + bit (is_version active read);
            outdated = s.outdated + bit (not (is_version active read));
          }))
          (sym e)

  abbrev pub IsReadableAt : List Row → D × ℕ → Type 0
  IsReadableAt rows d = All (λ r. IsReadable (property d.0 r.path)) rows

  on_document-tally_one :
      (doc : D) (rows : List Row)
      → All (λ r. IsReadable (property doc r.path)) rows
      → on_document property doc rows ≡ some (map (tally_one doc) rows)
  unfolding on_document
  on_document-tally_one doc [] h = refl
  on_document-tally_one doc (r ∷ rows) h =
      rw (counted-with_one r.active r.status (property doc r.path) h.0)
        (rw (on_document-tally_one doc rows h.1) refl)

  tally-tally_one :
      (doc : D) (number : ℕ) (docs : List (D × ℕ)) (rows : List Row)
      → map (tally docs) (map (tally_one doc) rows) ≡ map (tally ((doc, number) ∷ docs)) rows
  unfolding count
  tally-tally_one doc number docs [] = refl
  tally-tally_one doc number docs (r ∷ rows) =
      let row : tally docs (tally_one doc r) ≡ tally ((doc, number) ∷ docs) r =
        ap (λ s. record r { status = s })
          (same_numbers (omega arith) (omega arith) (omega arith)) in
      rw row
        (ap (λ rest. tally ((doc, number) ∷ docs) r ∷ rest) (tally-tally_one doc number docs rows))

  tally-nil : (rows : List Row) → map (tally []) rows ≡ rows
  unfolding count
  tally-nil [] = refl
  tally-nil (r ∷ rows) =
      let row : tally [] r ≡ r =
        ap (λ s. record r { status = s })
          (same_numbers (omega arith) (omega arith) (omega arith)) in
      rw row (ap (λ rest. r ∷ rest) (tally-nil rows))

  IsReadableAt-tally_one :
      (doc : D) (rows : List Row) (d : D × ℕ)
      → IsReadableAt rows d
      → IsReadableAt (map (tally_one doc) rows) d
  IsReadableAt-tally_one doc [] d h = tt
  IsReadableAt-tally_one doc (r ∷ rows) d h = (h.0, IsReadableAt-tally_one doc rows d h.1)

  on_documents-tally :
      (docs : List (D × ℕ)) (rows : List Row)
      → All (IsReadableAt rows) docs
      → on_documents property docs rows ≡ some (map (tally docs) rows)
  unfolding on_documents
  on_documents-tally [] rows h = ap some (sym (tally-nil rows))
  on_documents-tally ((doc, number) ∷ docs) rows h =
      ap (λ o. then_rows o (on_documents property docs)) (on_document-tally_one doc rows h.0)
      ∙ (on_documents-tally docs (map (tally_one doc) rows) (
            All-map (IsReadableAt rows) (IsReadableAt (map (tally_one doc) rows))
              (λ d. IsReadableAt-tally_one doc rows d) docs h.1)
          ∙ ap some (tally-tally_one doc number docs rows))

  check_paths-tally :
      (docs : List (D × ℕ)) (rows : List Row)
      → All (IsReadableAt rows) docs
      → check_paths property docs rows ≡ some (map (tally docs) rows)
  unfolding check_paths
  check_paths-tally docs [] h = refl
  check_paths-tally docs (row ∷ rows) h = on_documents-tally docs (row ∷ rows) h

  -- When `extractVersion` reads the values that the visited documents have at the checked paths, the
  -- check answers for each of these paths how many of those documents have a value there, how many of
  -- them one of the active version, and how many one of another version.
  pub check_protection_rotation_status-tally :
      {S : Type 0} (paths : List (String × DataProtection S)) (mode : Mode) (batch_size limit : ℕ)
      (found : List D)
      → All (IsReadableAt (checkable_paths paths)) (read_documents mode batch_size limit found)
      → check_protection_rotation_status property (some paths) mode batch_size limit found
        ≡ some (map (tally (read_documents mode batch_size limit found)) (checkable_paths paths))
  unfolding check_protection_rotation_status
  check_protection_rotation_status-tally paths mode batch_size limit found h =
      check_paths-tally (read_documents mode batch_size limit found) (checkable_paths paths) h
