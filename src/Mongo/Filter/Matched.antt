-- ===== src/Mongo/Filter/Matched.antt =====
-- The protected filter finds the stored documents of the plain ones that the filter finds.
use datamaster.Prelude.{
  ◌≡◌, refl, sym, ap, ◌∙◌, Bool, true, false, ◌&&◌, ◌||◌, Option, List, String, All,
}
use datamaster.Storage.Encryption.{Env}
use datamaster.Protection.Version.{Value}
use datamaster.Protection.Values.{Codec, DataProtection}
use datamaster.Mongo.Filter.{
  Condition, Filter, filter, Branches, absent, end, branch, Attempt, done, thrown, combined,
  protect_paths, protect_filter_by_paths, protect_branches,
}
use datamaster.Mongo.Filter.Meaning.{Stored, matches, any_matches, all_match}
use datamaster.Mongo.Filter.Conditions.{IsText, AreReady, done-injective, and_then-done}
use datamaster.Mongo.Filter.Fields.{store, AreDistinct, meets_all-protect_paths}

record Parts (ors ands nors : Attempt Branches) (fields : Attempt (List (String × Condition)))
    (f : Filter) : Type 0 where
  ors_part : Branches
  ands_part : Branches
  nors_part : Branches
  fields_part : List (String × Condition)
  from_ors : ors ≡ done ors_part
  from_ands : ands ≡ done ands_part
  from_nors : nors ≡ done nors_part
  from_fields : fields ≡ done fields_part
  together : f ≡ filter ors_part ands_part nors_part fields_part

combined-done :
    (ors ands nors : Attempt Branches) (fields : Attempt (List (String × Condition))) (f : Filter)
    → combined ors ands nors fields ≡ done f
    → Parts ors ands nors fields f
combined-done (thrown x) ands nors fields f e = absurd (cc)
combined-done (done o) (thrown x) nors fields f e = absurd (cc)
combined-done (done o) (done a) (thrown x) fields f e = absurd (cc)
combined-done (done o) (done a) (done n) (thrown x) f e = absurd (cc)
combined-done (done o) (done a) (done n) (done w) f e = record {
  ors_part = o;
  ands_part = a;
  nors_part = n;
  fields_part = w;
  from_ors = refl;
  from_ands = refl;
  from_nors = refl;
  from_fields = refl;
  together = sym (done-injective e);
}

module _ {S Seed : Type 0} (c : Codec S Seed) (env : Env) (seed : Seed)
    (protection : String → DataProtection S) (operator : String → Option Value → Bool) where
  module _ (paths : List String) (doc : Stored) (distinct : AreDistinct paths)
      (ready : All (AreReady c env seed protection operator) paths)
      (texts : All (λ path. IsText (doc path)) paths) where
    mutual
      unfolding protect_filter_by_paths matches

      found_same :
          (f f' : Filter)
          → protect_filter_by_paths c env protection paths f ≡ done f'
          → matches operator f' (store c env seed protection operator paths doc)
            ≡ matches operator f doc
      found_same (filter ors ands nors fields) f' e =
          let parts =
            combined-done (protect_branches c env protection paths ors)
              (protect_branches c env protection paths ands)
              (protect_branches c env protection paths nors)
              (protect_paths c env protection paths fields) f' e in
          let o = any_matches-protect_branches true ors parts.ors_part parts.from_ors in
          let a = all_match-protect_branches ands parts.ands_part parts.from_ands in
          let n = any_matches-protect_branches false nors parts.nors_part parts.from_nors in
          let w =
            meets_all-protect_paths c env seed protection operator paths fields parts.fields_part
              doc distinct ready texts parts.from_fields in
          ap (λ f. matches operator f (store c env seed protection operator paths doc))
            parts.together
          ∙ (rw (o, a, n, w) refl)

      any_matches-protect_branches :
          (without : Bool) (branches branches' : Branches)
          → protect_branches c env protection paths branches ≡ done branches'
          → any_matches operator without branches' (store c env seed protection operator paths doc)
            ≡ any_matches operator without branches doc
      any_matches-protect_branches without absent branches' e =
          ap (λ b. any_matches operator without b (store c env seed protection operator paths doc))
            (sym (done-injective e))
      any_matches-protect_branches without end branches' e =
          ap (λ b. any_matches operator without b (store c env seed protection operator paths doc))
            (sym (done-injective e))
      any_matches-protect_branches without (branch f branches) branches' e =
          let (f1, (first, e1)) = and_then-done _ _ branches' e in
          let (rest, (others, e2)) = and_then-done _ _ branches' e1 in
          ap (λ b. any_matches operator without b (store c env seed protection operator paths doc))
            (sym (done-injective e2))
          ∙ ap
              (λ b.
                b
                || any_matches operator false rest (store c env seed protection operator paths doc))
              (found_same f f1 first)
          ∙ ap (λ b. matches operator f doc || b)
              (any_matches-protect_branches false branches rest others)

      all_match-protect_branches :
          (branches branches' : Branches)
          → protect_branches c env protection paths branches ≡ done branches'
          → all_match operator branches' (store c env seed protection operator paths doc)
            ≡ all_match operator branches doc
      all_match-protect_branches absent branches' e =
          ap (λ b. all_match operator b (store c env seed protection operator paths doc))
            (sym (done-injective e))
      all_match-protect_branches end branches' e =
          ap (λ b. all_match operator b (store c env seed protection operator paths doc))
            (sym (done-injective e))
      all_match-protect_branches (branch f branches) branches' e =
          let (f1, (first, e1)) = and_then-done _ _ branches' e in
          let (rest, (others, e2)) = and_then-done _ _ branches' e1 in
          ap (λ b. all_match operator b (store c env seed protection operator paths doc))
            (sym (done-injective e2))
          ∙ ap (λ b. b && all_match operator rest (store c env seed protection operator paths doc))
              (found_same f f1 first)
          ∙ ap (λ b. matches operator f doc && b) (all_match-protect_branches branches rest others)

    -- If `useDataPolicies` rewrites a filter without an error, the rewritten filter finds, in the
    -- stored form of a document, what the given filter finds in the document itself. The paths are
    -- different ones, their values in the document are missing or texts that are not empty (nothing is
    -- stored for an empty one), and for those that are masked the active version can be read back, its
    -- key is set, and masking accepts every text.
    pub matches-protect_filter_by_paths :
        (f f' : Filter)
        → protect_filter_by_paths c env protection paths f ≡ done f'
        → matches operator f' (store c env seed protection operator paths doc)
          ≡ matches operator f doc
    matches-protect_filter_by_paths f f' e = found_same f f' e
