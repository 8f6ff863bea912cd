-- ===== src/Tests/ListStore.antt =====
-- A list of documents, which satisfies the interface of a Mongoose model.
use datamaster.Prelude.{
  ℕ, ◌+◌, ◌≤◌, ◌<◌, ◌≡◌, ◌≢◌, refl, ap, Bool, true, false, Option, none, some, List, [], ◌∷◌, ◌++◌,
  arith, All, All-map, leb, if◌then◌else◌, Bool-cases, inl, inr,
}
use datamaster.Collection.{
  Collection, Found, missing, found, Updated, unmatched, updated, Deleted, kept, deleted,
}

module _ {D : Type 0} (id : D → ℕ) where
  unfoldable pub fresh_id : List D → ℕ
  fresh_id [] = 1
  fresh_id (d ∷ ds) = id d + fresh_id ds

  pub fresh_id_above : (ds : List D) → (0 < fresh_id ds) × All (λ d. id d < fresh_id ds) ds
  unfolding fresh_id
  fresh_id_above [] = ((omega arith), tt)
  fresh_id_above (d ∷ ds) =
      let (positive, above) = fresh_id_above ds in
      (
        (omega arith),
        (
          (omega arith),
          All-map (λ x. id x < fresh_id ds) (λ x. id x < id d + fresh_id ds) (λ x l. omega arith) ds
              above,
        ),
      )

  unfoldable pub create_in : (ℕ → ℕ → D) → List D → List D × D
  create_in draft ds = let d = draft (fresh_id ds) (fresh_id ds) in (ds ++ d ∷ [], d)

  unfoldable pub find_in : (D → Bool) → List D → Option D
  find_in filter [] = none
  find_in filter (d ∷ ds) = let rest = find_in filter ds in if filter d then some d else rest

  -- The list around the first match of the least rank.
  unfoldable pub pick : (D → Bool) → (D → ℕ) → List D → Option (List D × D × List D)
  pick filter rank [] = none
  pick filter rank (d ∷ ds) =
      let rest = pick filter rank ds in
      if filter d
      then elim rest [
        | none ↦ some ([], d, ds)
        | some (before, e, after) ↦
            if leb (rank d) (rank e) then some ([], d, ds) else some (d ∷ before, e, after)
      ]
      else elim rest [ none ↦ none | some (before, e, after) ↦ some (d ∷ before, e, after) ]

  abbrev pub update_at : (D → D) → List D → Option (List D × D × List D) → List D × Option D
  update_at update ds none = (ds, none)
  update_at update ds (some (before, d, after)) = (before ++ update d ∷ after, some (update d))

  abbrev pub delete_at : List D → Option (List D × D × List D) → List D × ℕ
  delete_at ds none = (ds, 0)
  delete_at ds (some (before, d, after)) = (before ++ after, 1)

  unfoldable pub update_in : (D → Bool) → (D → ℕ) → (D → D) → List D → List D × Option D
  update_in filter rank update ds = update_at update ds (pick filter rank ds)

  unfoldable pub delete_in : (D → Bool) → List D → List D × ℕ
  delete_in filter ds = delete_at ds (pick filter (λ _. 0) ds)

  pub data IsPick (filter : D → Bool) (rank : D → ℕ) (ds : List D)
      : Option (List D × D × List D) → Type 0 where
    no_match : All (λ d. filter d ≡ false) ds → IsPick filter rank ds none
    match_at :
        (before : List D) (d : D) (after : List D)
        → ds ≡ before ++ d ∷ after
        → filter d ≡ true
        → All (λ x. filter x ≡ true → rank d ≤ rank x) ds
        → IsPick filter rank ds (some (before, d, after))

  skip-Found :
      (filter : D → Bool) (d : D) (ds : List D) (r : Option D)
      → filter d ≡ false
      → Found filter ds r
      → Found filter (d ∷ ds) r
  skip-Found filter d ds r off (missing all e) = missing (off, all) e
  skip-Found filter d ds r off (found before after x e m e') =
      found (d ∷ before) after x (ap (◌∷◌ d) e) m e'

  pub find_in-Found : (filter : D → Bool) (ds : List D) → Found filter ds (find_in filter ds)
  unfolding find_in
  find_in-Found filter [] = missing tt refl
  find_in-Found filter (d ∷ ds) = elim (Bool-cases (filter d)) [
    | inl here ↦ rw here (found [] ds d refl here refl)
    | inr off ↦ rw off (skip-Found filter d ds (find_in filter ds) off (find_in-Found filter ds))
  ]

  skip-IsPick :
      (filter : D → Bool) (rank : D → ℕ) (d : D) (ds : List D) (r : Option (List D × D × List D))
      → filter d ≡ false
      → IsPick filter rank ds r
      → IsPick filter rank
          (d ∷ ds)
          (elim r [ none ↦ none | some (before, e, after) ↦ some (d ∷ before, e, after) ])
  skip-IsPick filter rank d ds _ off (no_match all) = no_match (off, all)
  skip-IsPick filter rank d ds _ off (match_at before e after same m least) =
      match_at (d ∷ before) e after (ap (◌∷◌ d) same) m ((λ on. cc), least)

  -- Where nothing matches, every rank is least.
  All-unmatched :
      (filter : D → Bool) (rank : D → ℕ) (n : ℕ) (ds : List D)
      → All (λ d. filter d ≡ false) ds
      → All (λ x. filter x ≡ true → n ≤ rank x) ds
  All-unmatched filter rank n ds all =
      All-map (λ d. filter d ≡ false) (λ x. filter x ≡ true → n ≤ rank x) (λ x off on. cc) ds all

  here-IsPick :
      (filter : D → Bool) (rank : D → ℕ) (d : D) (ds : List D) (r : Option (List D × D × List D))
      → filter d ≡ true
      → IsPick filter rank ds r
      → IsPick filter rank (d ∷ ds) (elim r [
        | none ↦ some ([], d, ds)
        | some (before, e, after) ↦
            if leb (rank d) (rank e) then some ([], d, ds) else some (d ∷ before, e, after)
      ])
  here-IsPick filter rank d ds _ on (no_match all) =
      match_at [] d ds refl on ((λ _. omega arith), All-unmatched filter rank (rank d) ds all)
  here-IsPick filter rank d ds _ on (match_at before e after same m least) =
      elim (Bool-cases (leb (rank d) (rank e))) [
        | inl smaller ↦
            let le : rank d ≤ rank e = ground arith in
            rw smaller (
              match_at [] d ds refl on (
                (λ _. omega arith),
                All-map (λ x. filter x ≡ true → rank e ≤ rank x)
                    (λ x. filter x ≡ true → rank d ≤ rank x) (λ x l t. let l' = l t in omega arith)
                    ds least,
              ))
        | inr larger ↦
            let le : rank e ≤ rank d = ground arith in
            rw larger (match_at (d ∷ before) e after (ap (◌∷◌ d) same) m ((λ _. le), least))
      ]

  pub pick-IsPick :
      (filter : D → Bool) (rank : D → ℕ) (ds : List D) → IsPick filter rank ds (pick filter rank ds)
  unfolding pick
  pick-IsPick filter rank [] = no_match tt
  pick-IsPick filter rank (d ∷ ds) = elim (Bool-cases (filter d)) [
    | inl here ↦
        rw here
          (here-IsPick filter rank d ds (pick filter rank ds) here (pick-IsPick filter rank ds))
    | inr off ↦
        rw off (skip-IsPick filter rank d ds (pick filter rank ds) off (pick-IsPick filter rank ds))
  ]

  pub update_at-Updated :
      (filter : D → Bool) (rank : D → ℕ) (update : D → D) (ds : List D)
      (r : Option (List D × D × List D))
      → IsPick filter rank ds r
      → Updated filter rank update ds (update_at update ds r).0 (update_at update ds r).1
  update_at-Updated filter rank update ds _ (no_match all) = unmatched all refl refl
  update_at-Updated filter rank update ds _ (match_at before d after e m least) =
      updated before after d e refl m least refl

  pub delete_at-Deleted :
      (filter : D → Bool) (rank : D → ℕ) (ds : List D) (r : Option (List D × D × List D))
      → IsPick filter rank ds r
      → Deleted filter ds (delete_at ds r).0 (delete_at ds r).1
  delete_at-Deleted filter rank ds _ (no_match all) = kept all refl refl
  delete_at-Deleted filter rank ds _ (match_at before d after e m _) =
      deleted before after d e refl m refl

  unfoldable pub list_store : Collection D ℕ id
  unfolding create_in update_in delete_in
  list_store = record {
    Store = List D;
    docs = λ ds. ds;
    create = create_in;
    find_one = find_in;
    find_one_and_update = update_in;
    delete_one = delete_in;
    create_lem = λ draft ds. (
      fresh_id ds,
      fresh_id ds,
      All-map (λ d. id d < fresh_id ds) (λ d. id d ≢ fresh_id ds) (λ d l e. omega arith) ds
          (fresh_id_above ds).1,
      refl,
      refl,
    );
    find_one_lem = find_in-Found;
    find_one_and_update_lem = λ filter rank update ds.
        update_at-Updated filter rank update ds (pick filter rank ds) (pick-IsPick filter rank ds);
    delete_one_lem = λ filter ds.
        delete_at-Deleted filter (λ _. 0) ds (pick filter (λ _. 0) ds)
          (pick-IsPick filter (λ _. 0) ds);
  }
