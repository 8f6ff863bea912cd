-- ===== src/Mongo/Read.antt =====
-- processor/schema/statics/find.ts: the three ways to read the documents of a model. `found` is what
-- matches the filter, in the order of the database; the result is what `onDocument` was called with,
-- one document after the other, each with its number.
pub mod Visited
use datamaster.Prelude.{
  ℕ, zero, suc, ◌+◌, Bool, true, false, ◌&&◌, ◌||◌, List, [], ◌∷◌, take, ltb, leb, ◌==◌,
  if◌then◌else◌,
}

-- `total === batchSize || (limit > 0 && total >= limit)`
abbrev pub is_done : ℕ → ℕ → ℕ → Bool
is_done batch_size limit total = (total == batch_size) || (ltb 0 limit && leb limit total)

module _ {D : Type 0} where
  -- `if (limit > 0) query = query.limit(limit)`
  unfoldable pub limited : ℕ → List D → List D
  limited limit found = if ltb 0 limit then take limit found else found

  -- The loop, from the number of documents before it.
  unfoldable pub visit : ℕ → List D → List (D × ℕ)
  visit count [] = []
  visit count (d ∷ docs) = (d, count + 1) ∷ visit (count + 1) docs

  unfoldable pub read_find : ℕ → List D → List (D × ℕ)
  unfolding limited visit
  read_find limit found = visit 0 (limited limit found)

  unfoldable pub read_cursor : ℕ → List D → List (D × ℕ)
  unfolding limited visit
  read_cursor limit found = visit 0 (limited limit found)

  -- The loop of `readBatch`; the pause after so many documents changes nothing here.
  unfoldable pub visit_batch : ℕ → ℕ → ℕ → List D → List (D × ℕ)
  visit_batch batch_size limit total [] = []
  visit_batch batch_size limit total (d ∷ docs) =
      let rest = visit_batch batch_size limit (total + 1) docs in
      (d, total + 1) ∷ (if is_done batch_size limit (total + 1) then [] else rest)

  unfoldable pub read_batch : ℕ → ℕ → List D → List (D × ℕ)
  unfolding visit_batch
  read_batch batch_size limit found = visit_batch batch_size limit 0 found

pub data Mode : Type 0 where
  find cursor batch : Mode

-- `readDocuments`
unfoldable pub read_documents : {D : Type 0} → Mode → ℕ → ℕ → List D → List (D × ℕ)
read_documents find batch_size limit found = read_find limit found
read_documents cursor batch_size limit found = read_cursor limit found
read_documents batch batch_size limit found = read_batch batch_size limit found
