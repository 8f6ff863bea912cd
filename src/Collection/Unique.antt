-- ===== src/Collection/Unique.antt =====
-- Identifiers that no two documents of a Mongoose model share.
use datamaster.Prelude.{
  ℕ, ◌≡◌, ◌≢◌, refl, sym, ◌∙◌, Bool, Option, List, [], ◌∷◌, ◌++◌, All, All-middle, All-join,
  All-append, All-map,
}
use datamaster.Collection.{Updated, unmatched, updated, Deleted, kept, deleted}

module _ {D I : Type 0} (id : D → I) where
  abbrev pub IsUnique : List D → Type 0
  IsUnique [] = Unit
  IsUnique (d ∷ ds) = All (λ x. id x ≢ id d) ds × IsUnique ds

  -- What has the identifier of `d` is `d`.
  abbrev pub IsOnly : D → D → Type 0
  IsOnly d x = id x ≡ id d → x ≡ d

  pub IsUnique-IsOnly :
      (before after : List D) (d : D)
      → IsUnique (before ++ d ∷ after)
      → All (IsOnly d) (before ++ d ∷ after)
  IsUnique-IsOnly [] after d h =
      ((λ _. refl), All-map (λ x. id x ≢ id d) (IsOnly d) (λ x ne e. absurd (ne e)) after h.0)
  IsUnique-IsOnly (y ∷ before) after d h =
      let (_, other, _) = All-middle (λ x. id x ≢ id y) before d after h.0 in
      ((λ e. absurd (other (sym e))), IsUnique-IsOnly before after d h.1)

  IsUnique-replace :
      (before after : List D) (d d' : D)
      → id d' ≡ id d
      → IsUnique (before ++ d ∷ after)
      → IsUnique (before ++ d' ∷ after)
  IsUnique-replace [] after d d' e h = rw e h
  IsUnique-replace (y ∷ before) after d d' e h =
      let (front, here, back) = All-middle (λ x. id x ≢ id y) before d after h.0 in
      (
        All-join (λ x. id x ≢ id y) before d' after front (λ q. here (sym e ∙ q)) back,
        IsUnique-replace before after d d' e h.1,
      )

  IsUnique-remove :
      (before after : List D) (d : D) → IsUnique (before ++ d ∷ after) → IsUnique (before ++ after)
  IsUnique-remove [] after d h = h.1
  IsUnique-remove (y ∷ before) after d h =
      let (front, here, back) = All-middle (λ x. id x ≢ id y) before d after h.0 in
      (All-append (λ x. id x ≢ id y) before after front back, IsUnique-remove before after d h.1)

  pub IsUnique-add :
      (ds : List D) (d : D) → All (λ x. id x ≢ id d) ds → IsUnique ds → IsUnique (ds ++ d ∷ [])
  IsUnique-add [] d h u = (tt, tt)
  IsUnique-add (y ∷ ds) d h u = (
    All-append (λ x. id x ≢ id y) ds (d ∷ []) u.0 ((λ e. h.0 (sym e)), tt),
    IsUnique-add ds d h.1 u.1,
  )

  pub Updated-IsUnique :
      {filter : D → Bool} {rank : D → ℕ} {update : D → D} {docs docs' : List D} {r : Option D}
      → Updated filter rank update docs docs' r
      → ((d : D) → id (update d) ≡ id d)
      → IsUnique docs
      → IsUnique docs'
  Updated-IsUnique (unmatched _ e _) same h = rw e h
  Updated-IsUnique (updated before after d e e' _ _ _) same h =
      rw e' (IsUnique-replace before after d _ (same d) (rw e at h))

  pub Deleted-IsUnique :
      {filter : D → Bool} {docs docs' : List D} {n : ℕ}
      → Deleted filter docs docs' n
      → IsUnique docs
      → IsUnique docs'
  Deleted-IsUnique (kept _ e _) h = rw e h
  Deleted-IsUnique (deleted before after d e e' _ _) h =
      rw e' (IsUnique-remove before after d (rw e at h))
