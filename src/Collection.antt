-- ===== src/Collection.antt =====
-- A Mongoose model as the program uses it: an interface with the documented behaviour of its
-- operations, each atomic on one document. The package is not part of the repository.
pub mod Unique
use datamaster.Prelude.{
  ℕ, ◌≤◌, ◌≡◌, ◌≢◌, sym, Bool, true, false, Option, none, some, List, [], ◌∷◌, ◌++◌, All,
  All-middle, All-join, All-append,
}

-- `findOne(filter)`: a document that matches, or none matches.
pub data Found {D : Type 0} (filter : D → Bool) (docs : List D) (r : Option D) : Type 0 where
  missing : All (λ d. filter d ≡ false) docs → r ≡ none → Found filter docs r
  found :
      (before after : List D) (d : D)
      → docs ≡ before ++ d ∷ after
      → filter d ≡ true
      → r ≡ some d
      → Found filter docs r

-- `findOneAndUpdate(filter, update, { new: true, sort })`: of the documents that match, one of the
-- least rank is replaced and returned; or none matches, and nothing changes.
pub data Updated {D : Type 0} (filter : D → Bool) (rank : D → ℕ) (update : D → D)
    (docs docs' : List D) (r : Option D) : Type 0 where
  unmatched :
      All (λ d. filter d ≡ false) docs
      → docs' ≡ docs
      → r ≡ none
      → Updated filter rank update docs docs' r
  updated :
      (before after : List D) (d : D)
      → docs ≡ before ++ d ∷ after
      → docs' ≡ before ++ update d ∷ after
      → filter d ≡ true
      → All (λ x. filter x ≡ true → rank d ≤ rank x) docs
      → r ≡ some (update d)
      → Updated filter rank update docs docs' r

-- `deleteOne(filter)`, with its `deletedCount`.
pub data Deleted {D : Type 0} (filter : D → Bool) (docs docs' : List D) (count : ℕ) : Type 0 where
  kept :
      All (λ d. filter d ≡ false) docs → docs' ≡ docs → count ≡ 0 → Deleted filter docs docs' count
  deleted :
      (before after : List D) (d : D)
      → docs ≡ before ++ d ∷ after
      → docs' ≡ before ++ after
      → filter d ≡ true
      → count ≡ 1
      → Deleted filter docs docs' count

-- The model over documents `D` with an identifier in `I`. `create` is given what the identifier and the
-- time of creation, which the database assigns, are put into.
pub record Collection (D I : Type 0) (id : D → I) : Type 1 where
  pub Store : Type 0
  pub docs : Store → List D
  pub create : (I → ℕ → D) → Store → Store × D
  pub find_one : (D → Bool) → Store → Option D
  pub find_one_and_update : (D → Bool) → (D → ℕ) → (D → D) → Store → Store × Option D
  pub delete_one : (D → Bool) → Store → Store × ℕ
  pub create_lem :
      (draft : I → ℕ → D) (s : Store)
      → (i : I) × (t : ℕ) × All (λ d. id d ≢ i) (docs s)
        × (docs (create draft s).0 ≡ docs s ++ draft i t ∷ [])
        × ((create draft s).1 ≡ draft i t)
  pub find_one_lem : (filter : D → Bool) (s : Store) → Found filter (docs s) (find_one filter s)
  pub find_one_and_update_lem :
      (filter : D → Bool) (rank : D → ℕ) (update : D → D) (s : Store)
      → Updated filter rank update
          (docs s)
          (docs (find_one_and_update filter rank update s).0)
          (find_one_and_update filter rank update s).1
  pub delete_one_lem :
      (filter : D → Bool) (s : Store)
      → Deleted filter (docs s) (docs (delete_one filter s).0) (delete_one filter s).1

-- A property of every document survives an update that keeps it.
pub Updated-All :
    {D : Type 0} {filter : D → Bool} {rank : D → ℕ} {update : D → D} {docs docs' : List D}
    {r : Option D} (P : D → Type 0)
    → Updated filter rank update docs docs' r
    → ((d : D) → filter d ≡ true → P d → P (update d))
    → All P docs
    → All P docs'
Updated-All P (unmatched _ e _) keep h = rw e h
Updated-All P (updated before after d e e' m _ _) keep h =
    let (front, here, back) = All-middle P before d after (rw e at h) in
    rw e' (All-join P before _ after front (keep d m here) back)

pub Deleted-All :
    {D : Type 0} {filter : D → Bool} {docs docs' : List D} {n : ℕ} (P : D → Type 0)
    → Deleted filter docs docs' n
    → All P docs
    → All P docs'
Deleted-All P (kept _ e _) h = rw e h
Deleted-All P (deleted before after d e e' m _) h =
    let (front, here, back) = All-middle P before d after (rw e at h) in
    rw e' (All-append P before after front back)

-- An update that returns a document, and one that does not.
pub Updated-some :
    {D : Type 0} {filter : D → Bool} {rank : D → ℕ} {update : D → D} {docs docs' : List D}
    {r : Option D} (e : D)
    → Updated filter rank update docs docs' r
    → r ≡ some e
    → (before : List D) × (after : List D) × (d : D) × (docs ≡ before ++ d ∷ after)
      × (docs' ≡ before ++ e ∷ after)
      × (e ≡ update d)
      × (filter d ≡ true)
      × All (λ x. filter x ≡ true → rank d ≤ rank x) docs
Updated-some {update} e (unmatched _ _ q) p = absurd (cc)
Updated-some {update} e (updated before after d x x' m least q) p =
    let same : update d ≡ e = cc in (before, after, d, x, rw (← same) x', sym same, m, least)

pub Updated-none :
    {D : Type 0} {filter : D → Bool} {rank : D → ℕ} {update : D → D} {docs docs' : List D}
    {r : Option D}
    → Updated filter rank update docs docs' r
    → r ≡ none
    → (docs' ≡ docs) × All (λ d. filter d ≡ false) docs
Updated-none (unmatched all e _) p = (e, all)
Updated-none (updated before after d x x' m least q) p = absurd (cc)
