-- ===== src/Mongo/Read/Visited.antt =====
-- Which documents are read.
use datamaster.Prelude.{
  ℕ, zero, suc, ◌+◌, ◌-◌, ◌<◌, ◌≡◌, refl, sym, ap, ◌∙◌, true, false, List, [], ◌∷◌, take, get_elem?,
  some, Bool-cases, inl, inr, arith, min,
}
use mathlib.Core.Option
use datamaster.Mongo.Read.{
  limited, visit, read_find, read_cursor, is_done, visit_batch, read_batch, Mode, find, cursor,
  batch, read_documents,
}

-- The bound of a mode on the documents that it reads; 0 is no bound.
abbrev pub bound : Mode → ℕ → ℕ → ℕ
bound find batch_size limit = limit
bound cursor batch_size limit = limit
bound batch zero limit = limit
bound batch (suc size) zero = suc size
bound batch (suc size) (suc limit) = min (suc size) (suc limit)

is_done_last :
    (batch_size limit total : ℕ)
    → total < bound batch batch_size limit
    → is_done batch_size limit (total + 1) ≡ true
    → bound batch batch_size limit - (total + 1) ≡ 0
is_done_last zero zero total h e = ground arith
is_done_last zero (suc limit) total h e = ground arith
is_done_last (suc size) zero total h e = ground arith
is_done_last (suc size) (suc limit) total h e = ground arith

is_done_more :
    (batch_size limit total : ℕ)
    → total < bound batch batch_size limit
    → is_done batch_size limit (total + 1) ≡ false
    → total + 1 < bound batch batch_size limit
is_done_more zero zero total h e = ground arith
is_done_more zero (suc limit) total h e = ground arith
is_done_more (suc size) zero total h e = ground arith
is_done_more (suc size) (suc limit) total h e = ground arith

is_done_never : (total : ℕ) → is_done 0 0 (total + 1) ≡ false
is_done_never total = ground arith

module _ {D : Type 0} where
  -- The first `n` documents; all of them for 0.
  abbrev pub at_most : ℕ → List D → List D
  at_most zero docs = docs
  at_most (suc n) docs = take (suc n) docs

  limited-at_most : (limit : ℕ) (found : List D) → limited limit found ≡ at_most limit found
  unfolding limited
  limited-at_most zero found = refl
  limited-at_most (suc n) found = ground arith

  take-nil : (n : ℕ) → take {A = D} n [] ≡ []
  take-nil zero = refl
  take-nil (suc n) = refl

  take_next :
      (n total : ℕ) (d : D) (docs : List D)
      → total < n
      → take (n - total) (d ∷ docs) ≡ d ∷ take (n - (total + 1)) docs
  take_next n total d docs h =
      let e : n - total ≡ suc (n - (total + 1)) = omega arith in ap (λ k. take k (d ∷ docs)) e

  -- From `total` on, before the bound is reached.
  visit_batch-take :
      (batch_size limit total : ℕ) (docs : List D)
      → total < bound batch batch_size limit
      → visit_batch batch_size limit total docs
        ≡ visit total (take (bound batch batch_size limit - total) docs)
  unfolding visit_batch visit
  visit_batch-take batch_size limit total [] h =
      sym (ap (visit total) (take-nil (bound batch batch_size limit - total)))
  visit_batch-take batch_size limit total (d ∷ docs) h =
      elim (Bool-cases (is_done batch_size limit (total + 1))) [
        | inl e ↦ rw e (
            rw (take_next (bound batch batch_size limit) total d docs h)
              (rw (is_done_last batch_size limit total h e) refl))
        | inr e ↦ rw e (
            rw (take_next (bound batch batch_size limit) total d docs h) (
              ap (λ calls. (d, total + 1) ∷ calls)
                (visit_batch-take batch_size limit (total + 1) docs
                  (is_done_more batch_size limit total h e))))
      ]

  -- Without a bound.
  visit_batch-visit : (total : ℕ) (docs : List D) → visit_batch 0 0 total docs ≡ visit total docs
  unfolding visit_batch visit
  visit_batch-visit total [] = refl
  visit_batch-visit total (d ∷ docs) =
      rw (is_done_never total)
        (ap (λ calls. (d, total + 1) ∷ calls) (visit_batch-visit (total + 1) docs))

  at_most-take : (n : ℕ) (docs : List D) → 0 < n → take (n - 0) docs ≡ at_most n docs
  at_most-take zero docs h = elim h [ ]
  at_most-take (suc n) docs h = let e : suc n - 0 ≡ suc n = omega arith in ap (λ k. take k docs) e

  bounded :
      (batch_size limit : ℕ) (found : List D)
      → 0 < bound batch batch_size limit
      → read_batch batch_size limit found ≡ visit 0 (at_most (bound batch batch_size limit) found)
  unfolding read_batch
  bounded batch_size limit found h =
      visit_batch-take batch_size limit 0 found h
      ∙ ap (visit 0) (at_most-take (bound batch batch_size limit) found h)

  read_batch-visit :
      (batch_size limit : ℕ) (found : List D)
      → read_batch batch_size limit found ≡ visit 0 (at_most (bound batch batch_size limit) found)
  unfolding read_batch
  read_batch-visit zero zero found = visit_batch-visit 0 found
  read_batch-visit zero (suc limit) found = bounded zero (suc limit) found (omega arith)
  read_batch-visit (suc size) zero found = bounded (suc size) zero found (omega arith)
  read_batch-visit (suc size) (suc limit) found = bounded (suc size) (suc limit) found (omega arith)

  read_documents-visit :
      (mode : Mode) (batch_size limit : ℕ) (found : List D)
      → read_documents mode batch_size limit found
        ≡ visit 0 (at_most (bound mode batch_size limit) found)
  unfolding read_documents read_find read_cursor
  read_documents-visit find batch_size limit found = ap (visit 0) (limited-at_most limit found)
  read_documents-visit cursor batch_size limit found = ap (visit 0) (limited-at_most limit found)
  read_documents-visit batch batch_size limit found = read_batch-visit batch_size limit found

  get_elem-visit :
      (count i : ℕ) (docs : List D)
      → get_elem? (visit count docs) i ≡ Option.map (λ d. (d, count + i + 1)) (get_elem? docs i)
  unfolding visit
  get_elem-visit count i [] = refl
  get_elem-visit count zero (d ∷ docs) =
      let e : count + 1 ≡ count + 0 + 1 = omega arith in ap (λ number. some (d, number)) e
  get_elem-visit count (suc i) (d ∷ docs) =
      let e : count + 1 + i + 1 ≡ count + suc i + 1 = omega arith in
      get_elem-visit (count + 1) i docs
      ∙ ap (λ number. Option.map (λ e. (e, number)) (get_elem? docs i)) e

  -- `onDocument` gets the documents in the order of the database, once each and with their numbers
  -- from 1: in the modes `find` and `cursor` the first `limit` documents (all for 0), and in the mode
  -- `batch` the first `limit` documents but never more than `batchSize` of them, with and without a
  -- `limit` (`batchSize` 0 is no bound).
  pub read_documents-visits :
      (mode : Mode) (batch_size limit i : ℕ) (found : List D)
      → get_elem? (read_documents mode batch_size limit found) i
        ≡ Option.map (λ d. (d, i + 1)) (get_elem? (at_most (bound mode batch_size limit) found) i)
  read_documents-visits mode batch_size limit i found =
      ap (λ calls. get_elem? calls i) (read_documents-visit mode batch_size limit found)
      ∙ get_elem-visit 0 i (at_most (bound mode batch_size limit) found)
      ∙ (let e : 0 + i + 1 ≡ i + 1 = omega arith in
          ap
            (λ number.
              Option.map (λ d. (d, number))
                (get_elem? (at_most (bound mode batch_size limit) found) i))
            e)
