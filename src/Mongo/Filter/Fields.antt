-- ===== src/Mongo/Filter/Fields.antt =====
-- The fields of a protected filter on the values as they are stored.
use datamaster.Prelude.{
  ◌≡◌, ◌≢◌, refl, sym, ap, ◌∙◌, Bool, ◌&&◌, Option, List, [], ◌∷◌, String, String_discrete, holds,
  if◌then◌else◌, All,
}
use mathlib.Core.Path.{subst}
use datamaster.Storage.Encryption.{Env}
use datamaster.Protection.Version.{Value}
use datamaster.Protection.Values.{Codec, DataProtection}
use datamaster.Mongo.Filter.{Condition, done, protect_condition, protect_path, protect_paths}
use datamaster.Mongo.Filter.Meaning.{Stored, meets, meets_all}
use datamaster.Mongo.Filter.Conditions.{
  IsText, AreReady, stored_value, done-injective, and_then-done, meets-protect_condition,
}

abbrev pub AreDistinct : List String → Type 0
AreDistinct [] = Unit
AreDistinct (path ∷ paths) = All (λ other_path. other_path ≢ path) paths × AreDistinct paths

module _ {S Seed : Type 0} (c : Codec S Seed) (env : Env) (seed : Seed)
    (protection : String → DataProtection S) (operator : String → Option Value → Bool) where
  -- The document with the values of the paths as the setter stores them.
  abbrev pub store_path : String → Stored → Stored
  store_path path doc = λ name.
      if holds (String_discrete name path)
      then stored_value c env seed protection operator path (doc name)
      else doc name

  abbrev pub store : List String → Stored → Stored
  store [] doc = doc
  store (path ∷ paths) doc = store paths (store_path path doc)

  field_by :
      (path name : String) (asked asked' : Condition) (doc : Stored) (d : Dec (name ≡ path))
      → AreReady c env seed protection operator path
      → IsText (doc path)
      → (if holds d then protect_condition c env protection path asked else done asked)
        ≡ done asked'
      → meets operator asked' (
          if holds d then stored_value c env seed protection operator path (doc name) else doc name)
        ≡ meets operator asked (doc name)
  field_by path name asked asked' doc (yes p) ready text e =
      meets-protect_condition c env seed protection operator path asked asked' (doc name) ready
        (subst (λ n. IsText (doc n)) (sym p) text) e
  field_by path name asked asked' doc (no p) ready text e =
      ap (λ a. meets operator a (doc name)) (sym (done-injective e))

  -- A field of the filter, of the path or of another name.
  meets_field :
      (path name : String) (asked asked' : Condition) (doc : Stored)
      → AreReady c env seed protection operator path
      → IsText (doc path)
      → (if holds (String_discrete name path)
          then protect_condition c env protection path asked
          else done asked)
        ≡ done asked'
      → meets operator asked' (store_path path doc name) ≡ meets operator asked (doc name)
  meets_field path name asked asked' doc ready text e =
      field_by path name asked asked' doc (String_discrete name path) ready text e

  meets_all-protect_path :
      (path : String) (fields fields' : List (String × Condition)) (doc : Stored)
      → AreReady c env seed protection operator path
      → IsText (doc path)
      → protect_path c env protection path fields ≡ done fields'
      → meets_all operator fields' (store_path path doc) ≡ meets_all operator fields doc
  unfolding protect_path
  meets_all-protect_path path [] fields' doc ready text e =
      ap (λ f. meets_all operator f (store_path path doc)) (sym (done-injective e))
  meets_all-protect_path path ((name, asked) ∷ fields) fields' doc ready text e =
      let (asked', (first, e')) = and_then-done _ _ fields' e in
      let (rest, (others, e'')) = and_then-done _ _ fields' e' in
      ap (λ f. meets_all operator f (store_path path doc)) (sym (done-injective e''))
      ∙ ap (λ b. b && meets_all operator rest (store_path path doc))
          (meets_field path name asked asked' doc ready text first)
      ∙ ap (λ b. meets operator asked (doc name) && b)
          (meets_all-protect_path path fields rest doc ready text others)

  unstored :
      (path : String) (doc : Stored) (name : String) (d : Dec (name ≡ path))
      → name ≢ path
      → (if holds d then stored_value c env seed protection operator path (doc name) else doc name)
        ≡ doc name
  unstored path doc name (yes p) ne = absurd (ne p)
  unstored path doc name (no p) ne = refl

  store_path_other :
      (path : String) (doc : Stored) (paths : List String)
      → All (λ other_path. other_path ≢ path) paths
      → All (λ p. IsText (doc p)) paths
      → All (λ p. IsText (store_path path doc p)) paths
  store_path_other path doc [] apart texts = tt
  store_path_other path doc (p ∷ paths) apart texts = (
    subst IsText (sym (unstored path doc p (String_discrete p path) apart.0)) texts.0,
    store_path_other path doc paths apart.1 texts.1,
  )

  pub meets_all-protect_paths :
      (paths : List String) (fields fields' : List (String × Condition)) (doc : Stored)
      → AreDistinct paths
      → All (AreReady c env seed protection operator) paths
      → All (λ path. IsText (doc path)) paths
      → protect_paths c env protection paths fields ≡ done fields'
      → meets_all operator fields' (store paths doc) ≡ meets_all operator fields doc
  unfolding protect_paths
  meets_all-protect_paths [] fields fields' doc distinct ready texts e =
      ap (λ f. meets_all operator f doc) (sym (done-injective e))
  meets_all-protect_paths (path ∷ paths) fields fields' doc distinct ready texts e =
      let (fields1, (first, rest)) = and_then-done _ _ fields' e in
      meets_all-protect_paths paths fields1 fields' (store_path path doc) distinct.1 ready.1
        (store_path_other path doc paths distinct.0 texts.1) rest
      ∙ meets_all-protect_path path fields fields1 doc ready.0 texts.0 first
