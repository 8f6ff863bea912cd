-- ===== src/Mongo/Protect/Save.antt =====
-- What a save of a document that was read protects.
use datamaster.Prelude.{
  ◌≡◌, refl, ap, ◌∙◌, Bool, true, false, not, ◌&&◌, Option, some, List, [], ◌∷◌, ◌++◌, String,
  Bool-cases, inl, inr, if◌then◌else◌, All,
}
use mathlib.Core.Path.{subst}
use datamaster.Storage.Encryption.{Env}
use datamaster.Protection.Values.{Codec, DataProtection}
use datamaster.Mongo.Shallow.{Json, keys_of, transform_shallow_by_paths}
use datamaster.Mongo.Shallow.Values.{values_at, map_given, IsProper, Apart}
use datamaster.Mongo.Shallow.Values.Effect.{kept, changed}
use datamaster.Mongo.Protect.{
  is_protection_unchanged, is_wildcard_path, select, any_of, get_path, Document, protect_value,
  throws, protect_by_paths, to_protect, with_content, in_snapshot, pre_save,
}

module _ {A : Type 0} (keep : A → Bool) where
  select-append : (l m : List A) → select keep (l ++ m) ≡ select keep l ++ select keep m
  unfolding select
  select-append [] m = refl
  select-append (x ∷ l) m = elim (Bool-cases (keep x)) [
    | inl e ↦ rw e (ap (λ rest. x ∷ rest) (select-append l m))
    | inr e ↦ rw e (select-append l m)
  ]

  select-All : (P : A → Type 0) (l : List A) → All P l → All P (select keep l)
  unfolding select
  select-All P [] h = tt
  select-All P (x ∷ l) h =
      elim (keep x) as (λ b. All P (if b then x ∷ select keep l else select keep l)) [
        | true ↦ (h.0, select-All P l h.1)
        | false ↦ select-All P l h.1
      ]

  select_kept :
      (l m : List A) (x : A)
      → keep x ≡ true
      → select keep (l ++ x ∷ m) ≡ select keep l ++ x ∷ select keep m
  unfolding select
  select_kept l m x e = select-append l (x ∷ m) ∙ (rw e refl)

  select_left :
      (l m : List A) (x : A)
      → keep x ≡ false
      → select keep (l ++ x ∷ m) ≡ select keep l ++ select keep m
  unfolding select
  select_left l m x e = select-append l (x ∷ m) ∙ (rw e refl)

any_of_never :
    {A : Type 0} (test : A → Bool) (l : List A) → ((x : A) → test x ≡ false) → any_of test l ≡ false
unfolding any_of
any_of_never test [] h = refl
any_of_never test (x ∷ l) h = rw (h x) (any_of_never test l h)

and_not : (m u : Bool) → (m ≡ false → u ≡ true) → (m && not u) ≡ not u
and_not true u h = refl
and_not false u h = rw (h refl) refl

module _ {S Seed : Type 0} (c : Codec S Seed) (env : Env) (seed : Seed)
    (protection : String → DataProtection S)
    (configured : (path : String) (v : Json) → throws c env seed protection path v ≡ false) where
  -- With a configuration for each path nothing is thrown.
  pub protect_by_paths-some :
      (paths : List String) (content : Json)
      → protect_by_paths c env seed protection paths content
        ≡ some (transform_shallow_by_paths (protect_value c env seed protection) paths content)
  unfolding protect_by_paths
  protect_by_paths-some paths content =
      rw
        (any_of_never
          (λ path. any_of (throws c env seed protection path) (values_at (keys_of path) content))
          paths
          (λ path.
            any_of_never (throws c env seed protection path) (values_at (keys_of path) content)
              (configured path)))
        refl

  module _ (loaded : Json) (doc : Document) (read : doc.is_new ≡ false)
      (snapped : doc.snapshot ≡ some (λ path. get_path path loaded)) where
    saved : List String → Json
    saved paths =
        transform_shallow_by_paths (protect_value c env seed protection)
          (select (to_protect c env seed protection doc) paths) doc.content

    pre_save-saved :
        (paths : List String)
        → pre_save c env seed protection true paths doc
          ≡ some (record doc { content = saved paths })
    unfolding pre_save saved
    pre_save-saved paths =
        ap
          (λ b.
            if b
            then with_content c env seed protection doc
                (protect_by_paths c env seed protection paths doc.content)
            else with_content c env seed protection doc (
                protect_by_paths c env seed protection
                  (select (to_protect c env seed protection doc) paths) doc.content))
          read
        ∙ ap (with_content c env seed protection doc) (
            protect_by_paths-some (select (to_protect c env seed protection doc) paths) doc.content)

    to_protect_iff :
        (path : String)
        → is_wildcard_path path ≡ false
        → (doc.is_modified path ≡ false
            → is_protection_unchanged (get_path path doc.content) (get_path path loaded) ≡ true)
        → to_protect c env seed protection doc path
          ≡ not (is_protection_unchanged (get_path path doc.content) (get_path path loaded))
    unfolding to_protect
    to_protect_iff path plain sound =
        let values = λ (s : Option (String → Option Json)) (wildcard : Bool).
          not wildcard
          && (doc.is_modified path
              && not (
                  is_protection_unchanged (get_path path doc.content)
                    (in_snapshot c env seed protection s path))) in
        ap (λ s. values s (is_wildcard_path path)) snapped
        ∙ ap (values (some (λ p. get_path p loaded))) plain
        ∙ and_not (doc.is_modified path) _ sound

    own_values :
        (before after : List String) (path : String)
        → is_wildcard_path path ≡ false
        → (doc.is_modified path ≡ false
            → is_protection_unchanged (get_path path doc.content) (get_path path loaded) ≡ true)
        → IsProper (keys_of path)
        → All (λ other. Apart (keys_of path) (keys_of other)) (before ++ after)
        → values_at (keys_of path) (saved (before ++ path ∷ after)) ≡ (
            if is_protection_unchanged (get_path path doc.content) (get_path path loaded)
            then values_at (keys_of path) doc.content
            else map_given
                (protect_value c env seed protection path)
                (values_at (keys_of path) doc.content))
    unfolding saved
    own_values before after path plain sound proper own =
        let keep = to_protect c env seed protection doc in
        let protect = protect_value c env seed protection in
        let asked = to_protect_iff path plain sound in
        let chosen : All (λ other. Apart (keys_of path) (keys_of other))
            (select keep before ++ select keep after) =
          subst (All (λ other. Apart (keys_of path) (keys_of other)))
            (select-append keep before after)
            (select-All keep (λ other. Apart (keys_of path) (keys_of other)) (before ++ after)
              own) in
        elim (Bool-cases
          (is_protection_unchanged (get_path path doc.content) (get_path path loaded))) [
            | inl same ↦
                let skip = select_left keep before after path (asked ∙ ap not same) in
                rw (same, skip)
                  (kept protect (keys_of path) (select keep before ++ select keep after) doc.content
                    chosen)
            | inr other ↦
                let take = select_kept keep before after path (asked ∙ ap not other) in
                rw (other, take)
                  (changed protect (select keep before) (select keep after) path doc.content proper
                    chosen)
          ]

    -- With a configuration for each protected path, the save of a document that was read protects a
    -- path, which is no wildcard, exactly if its value is another than the one that was read (the
    -- document then counts it as modified): a value that is unchanged stays as it is and is not
    -- protected again, another one is replaced by what the setter stores, and values at keys that are
    -- no protected path's stay. The paths part from each other at different names.
    pub values_at-pre_save :
        (before after : List String) (path : String) (keys : List String)
        → is_wildcard_path path ≡ false
        → (doc.is_modified path ≡ false
            → is_protection_unchanged (get_path path doc.content) (get_path path loaded) ≡ true)
        → IsProper (keys_of path)
        → All (λ other. Apart (keys_of path) (keys_of other)) (before ++ after)
        → All (λ other. Apart keys (keys_of other)) (before ++ path ∷ after)
        → (content : Json) × ((pre_save c env seed protection true (before ++ path ∷ after) doc
              ≡ some (record doc { content = content }))
            × ((values_at (keys_of path) content ≡ (
                  if is_protection_unchanged (get_path path doc.content) (get_path path loaded)
                  then values_at (keys_of path) doc.content
                  else map_given
                      (protect_value c env seed protection path)
                      (values_at (keys_of path) doc.content)))
                × (values_at keys content ≡ values_at keys doc.content)))
    unfolding saved
    values_at-pre_save before after path keys plain sound proper own apart = (
      saved (before ++ path ∷ after),
      (
        pre_save-saved (before ++ path ∷ after),
        (
          own_values before after path plain sound proper own,
          kept (protect_value c env seed protection) keys _ doc.content (
              select-All (to_protect c env seed protection doc)
                (λ other. Apart keys (keys_of other)) (before ++ path ∷ after) apart),
        ),
      ),
    )
