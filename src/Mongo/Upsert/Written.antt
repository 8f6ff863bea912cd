-- ===== src/Mongo/Upsert/Written.antt =====
-- What the upserts by id have written when they end.
use datamaster.Prelude.{
  ◌≡◌, ◌⊎◌, inl, inr, refl, Bool, true, false, Bool-cases, Option, none, some, Option-cases, List,
  [], ◌∷◌, All, All-map,
}
use datamaster.Mongo.BulkWrite.{
  Driver, Among, Outcome, done, thrown, remaining, bulk_write_with_retry,
}
use datamaster.Mongo.BulkWrite.Applied.{bulk_write_with_retry-Settled}
use datamaster.Mongo.Shallow.{Fields}
use datamaster.Mongo.Upsert.{
  Entry, UpsertType, UpdateOne, update_of, updates_of, End, returned, rejected, never,
  plain_upsert_by_id, plain_upsert_many_by_id, protect_entries, with_data_policy, upsert_by_id,
  upsert_many_by_id,
}

Outcome-cases : {A : Type 0} (o : Outcome A) → (o ≡ done) ⊎ ((ops : List A) × (o ≡ thrown ops))
Outcome-cases done = inl refl
Outcome-cases (thrown ops) = inr (ops, refl)

applied_of :
    (d : Driver UpdateOne) (s : d.Store) (op : UpdateOne) (o : Outcome UpdateOne)
    → o ≡ done
    → d.IsApplied op s ⊎ Among op (remaining o)
    → d.IsApplied op s
applied_of d s op o written (inl a) = a
applied_of d s op done written (inr m) = absurd m
applied_of d s op (thrown ops) written (inr m) = cc

bulk_write_with_retry-done :
    (d : Driver UpdateOne) (ops : List UpdateOne) (s : d.Store)
    → (bulk_write_with_retry d ops s).1 ≡ done
    → All (λ op. d.IsApplied op (bulk_write_with_retry d ops s).0) ops
bulk_write_with_retry-done d ops s written =
    let r = bulk_write_with_retry d ops s in
    All-map (λ op. d.IsApplied op r.0 ⊎ Among op (remaining r.1)) (λ op. d.IsApplied op r.0)
      (λ op. applied_of d r.0 op r.1 written) ops (bulk_write_with_retry-Settled d ops s).0

-- How an upsert ends that has not written everything.
abbrev pub failed_end : Bool → End
failed_end true = never
failed_end false = rejected

module _ (d : Driver UpdateOne) (update_one : UpdateOne → d.Store → d.Store × Bool)
    (update_one_lem : (op : UpdateOne) (s : d.Store)
      → (update_one op s).1 ≡ true
      → d.IsApplied op (update_one op s).0)
    (protect : Fields → Option Fields) where
  abbrev pub AreApplied : UpsertType → List Entry → d.Store → Type 0
  AreApplied type entries s = All (λ op. d.IsApplied op s) (updates_of type entries)

  -- The data that goes to the database.
  abbrev pub given : Bool → List Entry → Option (List Entry)
  given true entries = protect_entries d update_one protect entries
  given false entries = some entries

  -- A write of these entries threw, and left the store: the `updateOne` of a single one, the bulk
  -- write with its retries of several.
  abbrev pub HasThrown : UpsertType → List Entry → d.Store → d.Store → Type 0
  HasThrown type [] s s' = ⊥
  HasThrown type (e ∷ []) s s' =
      ((update_one (update_of type e) s).1 ≡ false) × (s' ≡ (update_one (update_of type e) s).0)
  HasThrown type (e ∷ next ∷ entries) s s' =
      (rest : List UpdateOne) × ((bulk_write_with_retry d (updates_of type (e ∷ next ∷ entries))
          s).1
        ≡ thrown rest)
      × (s' ≡ (bulk_write_with_retry d (updates_of type (e ∷ next ∷ entries)) s).0)

  -- It returns with everything written, or a write threw.
  abbrev Plain : UpsertType → List Entry → d.Store → d.Store × End → Type 0
  Plain type entries s r =
      ((r.1 ≡ returned) × AreApplied type entries r.0)
      ⊎ ((r.1 ≡ rejected) × HasThrown type entries s r.0)

  plain_upsert_by_id-Plain :
      (type : UpsertType) (e : Entry) (s : d.Store)
      → Plain type (e ∷ []) s (plain_upsert_by_id d update_one protect type e s)
  unfolding plain_upsert_by_id updates_of
  plain_upsert_by_id-Plain type e s = elim (Bool-cases (update_one (update_of type e) s).1) [
    | inl written ↦ inl (rw written refl, (update_one_lem (update_of type e) s written, tt))
    | inr failed ↦ inr (rw failed refl, (failed, refl))
  ]

  plain_upsert_many_by_id-Plain :
      (type : UpsertType) (entries : List Entry) (s : d.Store)
      → Plain type entries s (plain_upsert_many_by_id d update_one protect type entries s)
  unfolding plain_upsert_many_by_id
  plain_upsert_many_by_id-Plain type [] s = inl (refl, tt)
  plain_upsert_many_by_id-Plain type (e ∷ []) s = plain_upsert_by_id-Plain type e s
  plain_upsert_many_by_id-Plain type (e ∷ next ∷ entries) s =
      let ops : List UpdateOne = updates_of type (e ∷ next ∷ entries) in
      elim (Outcome-cases (bulk_write_with_retry d ops s).1) [
        | inl written ↦ inl (rw written refl, bulk_write_with_retry-done d ops s written)
        | inr (rest, failed) ↦ inr (rw failed refl, (rest, failed, refl))
      ]

  -- By what `protect_entries` computes.
  abbrev pub Ends : Bool → UpsertType → List Entry → d.Store → d.Store × End → Type 0
  Ends policies type entries s r =
      ((written : List Entry) × (given policies entries ≡ some written)
        × (r.1 ≡ returned)
        × AreApplied type written r.0)
      ⊎ ((given policies entries ≡ none) × (r ≡ (s, never)))
      ⊎ ((written : List Entry) × (given policies entries ≡ some written)
          × (r.1 ≡ failed_end policies)
          × HasThrown type written s r.0)

  Plain-Ends :
      (type : UpsertType) (entries : List Entry) (s : d.Store) (r : d.Store × End)
      → Plain type entries s r
      → Ends false type entries s r
  Plain-Ends type entries s r (inl (back, applied)) = inl (entries, refl, back, applied)
  Plain-Ends type entries s r (inr (back, why)) = inr (inr (entries, refl, back, why))

  with_data_policy-Ends :
      (type : UpsertType) (entries : List Entry) (s : d.Store)
      → Ends true type entries s (with_data_policy d update_one protect type entries s)
  unfolding with_data_policy
  with_data_policy-Ends type entries s =
      elim (Option-cases (protect_entries d update_one protect entries)) [
        | inl nothing ↦ inr (inl (nothing, rw nothing refl))
        | inr (written, something) ↦ elim (plain_upsert_many_by_id-Plain type written s) [
          | inl (back, applied) ↦
              inl (written, something, rw something (rw back refl), rw something applied)
          | inr (back, why) ↦
              inr (inr (written, something, rw something (rw back refl), rw something why))
        ]
      ]

  pub upsert_many_by_id-Ends :
      (policies : Bool) (type : UpsertType) (entries : List Entry) (s : d.Store)
      → Ends policies type entries s
          (upsert_many_by_id d update_one protect policies type entries s)
  unfolding upsert_many_by_id upsert_by_id protect_entries
  upsert_many_by_id-Ends true type [] s = inl ([], refl, refl, tt)
  upsert_many_by_id-Ends false type [] s = inl ([], refl, refl, tt)
  upsert_many_by_id-Ends true type (e ∷ []) s = with_data_policy-Ends type (e ∷ []) s
  upsert_many_by_id-Ends false type (e ∷ []) s =
      Plain-Ends type (e ∷ []) s _ (plain_upsert_by_id-Plain type e s)
  upsert_many_by_id-Ends true type (e ∷ next ∷ entries) s =
      with_data_policy-Ends type (e ∷ next ∷ entries) s
  upsert_many_by_id-Ends false type (e ∷ next ∷ entries) s =
      Plain-Ends type (e ∷ next ∷ entries) s _
        (plain_upsert_many_by_id-Plain type (e ∷ next ∷ entries) s)

  -- The entries with their protected fields, in order.
  abbrev pub AreProtected : List Entry → List Entry → Type 0
  AreProtected [] [] = Unit
  AreProtected [] (w ∷ written) = ⊥
  AreProtected (e ∷ entries) [] = ⊥
  AreProtected (e ∷ entries) (w ∷ written) =
      (w.id ≡ e.id) × (protect e.obj ≡ some w.obj) × AreProtected entries written

  -- The protection of one of them throws.
  abbrev pub OneThrows : List Entry → Type 0
  OneThrows [] = ⊥
  OneThrows (e ∷ entries) = (protect e.obj ≡ none) ⊎ OneThrows entries

  protect_entries-cases :
      (entries : List Entry)
      → ((written : List Entry) × (protect_entries d update_one protect entries ≡ some written)
          × AreProtected entries written)
        ⊎ ((protect_entries d update_one protect entries ≡ none) × OneThrows entries)
  unfolding protect_entries
  protect_entries-cases [] = inl ([], refl, tt)
  protect_entries-cases (e ∷ entries) = elim (Option-cases (protect e.obj)) [
    | inl nothing ↦ inr (rw nothing refl, inl nothing)
    | inr (obj, something) ↦ elim (protect_entries-cases entries) [
      | inl (written, all, are) ↦
          inl (record e { obj = obj } ∷ written, rw (something, all) refl, (refl, something, are))
      | inr (none_of, throws) ↦ inr (rw (something, none_of) refl, inr throws)
    ]
  ]

  -- The data that is to be written.
  abbrev pub IsGiven : Bool → List Entry → List Entry → Type 0
  IsGiven true entries written = AreProtected entries written
  IsGiven false entries written = written ≡ entries

  -- An upsert's end and store.
  abbrev pub IsUpserted : Bool → UpsertType → List Entry → d.Store → d.Store × End → Type 0
  IsUpserted policies type entries s r =
      ((written : List Entry) × IsGiven policies entries written
        × (r.1 ≡ returned)
        × AreApplied type written r.0)
      ⊎ ((policies ≡ true) × OneThrows entries × (r ≡ (s, never)))
      ⊎ ((written : List Entry) × IsGiven policies entries written
          × (r.1 ≡ failed_end policies)
          × HasThrown type written s r.0)

  given-IsGiven :
      (policies : Bool) (entries written : List Entry)
      → given policies entries ≡ some written
      → IsGiven policies entries written
  given-IsGiven false entries written e = cc
  given-IsGiven true entries written e = elim (protect_entries-cases entries) [
    | inl (w, all, are) ↦ let same : w ≡ written = cc in rw (← same) are
    | inr (none_of, throws) ↦ absurd (cc)
  ]

  given-OneThrows :
      (policies : Bool) (entries : List Entry)
      → given policies entries ≡ none
      → (policies ≡ true) × OneThrows entries
  given-OneThrows false entries e = absurd (cc)
  given-OneThrows true entries e = elim (protect_entries-cases entries) [
    | inl (w, all, are) ↦ absurd (cc)
    | inr (none_of, throws) ↦ (refl, throws)
  ]

  Ends-IsUpserted :
      (policies : Bool) (type : UpsertType) (entries : List Entry) (s : d.Store) (r : d.Store × End)
      → Ends policies type entries s r
      → IsUpserted policies type entries s r
  Ends-IsUpserted policies type entries s r (inl (w, is, back, applied)) =
      inl (w, given-IsGiven policies entries w is, back, applied)
  Ends-IsUpserted policies type entries s r (inr (inl (nothing, same))) =
      let (on, throws) = given-OneThrows policies entries nothing in inr (inl (on, throws, same))
  Ends-IsUpserted policies type entries s r (inr (inr (w, is, back, why))) =
      inr (inr (w, given-IsGiven policies entries w is, back, why))

  -- `upsertManyById` ends in one of three ways. It returns, and the update of every entry, in its
  -- protected form with `useDataPolicies` on a model with protected paths, has been applied. Or, with
  -- these policies, the protection of an entry throws: nothing is written, and the promise never
  -- settles. Or the write of the entries in that form throws, the `updateOne` of a single entry or the
  -- bulk write of several: the store is as that write left it, and the promise rejects without data
  -- policies and never settles with them. The driver applies the operations of the calls that return.
  pub upsert_many_by_id-IsUpserted :
      (policies : Bool) (type : UpsertType) (entries : List Entry) (s : d.Store)
      → IsUpserted policies type entries s
          (upsert_many_by_id d update_one protect policies type entries s)
  upsert_many_by_id-IsUpserted policies type entries s =
      Ends-IsUpserted policies type entries s
        (upsert_many_by_id d update_one protect policies type entries s)
        (upsert_many_by_id-Ends policies type entries s)
