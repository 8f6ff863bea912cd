-- ===== src/Seeders/Rotate/Rotated.antt =====
-- What the rotation of the protection keys has written when it returns.
use datamaster.Prelude.{
  ℕ, ◌≡◌, refl, sym, ap, ◌∙◌, Bool, true, false, Option, none, some, List, [], ◌∷◌, ◌++◌, map,
  String, inl, inr, All,
}
use datamaster.Storage.Encryption.{Env}
use datamaster.Protection.Version.{Value}
use datamaster.Protection.Values.{
  Codec, DataProtection, Accessor, undefined, plain, unmaskable, decryptable, verifiable, unmask,
  decrypt_value, data_protection_getter, data_protection_setter,
}
use datamaster.Mongo.Shallow.{
  Json, null, leaf, object, Fields, keys_of, traverse, transform_shallow_by_paths,
}
use datamaster.Mongo.Shallow.Values.{values_at, given, map_given, IsProper, Apart}
use datamaster.Mongo.Shallow.Values.Effect.{kept, changed}
use datamaster.Mongo.Protect.{protect_value, processed_json, throws}
use datamaster.Mongo.Protect.Save.{protect_by_paths-some}
use datamaster.Mongo.Read.{Mode, read_documents}
use datamaster.Mongo.BulkWrite.{Driver}
use datamaster.Mongo.Upsert.{
  Entry, update, UpdateOne, update_of, updates_of, End, returned, protect_entries,
}
use datamaster.Mongo.Upsert.Written.{Ends, upsert_many_by_id-Ends}
use datamaster.Seeders.Rotate
use datamaster.Seeders.Rotate.{
  fields_of, collected, reverse_value, transform_by_data_protection, on_document, protect_fields,
  seed_rotate_protection_keys,
}

-- What a walk makes of an object is an object.
traverse-object :
    (transform : Json → Option Json) (keys : List String) (fields : Fields)
    → traverse transform keys (object fields)
      ≡ object (fields_of (traverse transform keys (object fields)))
unfolding traverse
traverse-object transform [] fields = refl
traverse-object transform (key ∷ keys) fields = refl

transform-object :
    (transform : String → Json → Option Json) (paths : List String) (fields : Fields)
    → transform_shallow_by_paths transform paths (object fields)
      ≡ object (fields_of (transform_shallow_by_paths transform paths (object fields)))
unfolding transform_shallow_by_paths
transform-object transform [] fields = refl
transform-object transform (path ∷ paths) fields =
    let e = traverse-object (transform path) (keys_of path) fields in
    rw e (
      transform-object transform paths
        (fields_of (traverse (transform path) (keys_of path) (object fields))))

-- Two transforms one after the other.
abbrev then_answer : (Json → Option Json) → Option Json → Option Json
then_answer after none = none
then_answer after (some v) = after v

map_given_twice :
    (before after both : Json → Option Json) (values : List Json)
    → ((v : Json) → both v ≡ then_answer after (before v))
    → map_given after (map_given before values) ≡ map_given both values
unfolding map_given
map_given_twice before after both [] h = refl
map_given_twice before after both (v ∷ values) h =
    let rest = map_given_twice before after both values h in
    elim (before v)
        as (λ b.
          both v ≡ then_answer after b
          → map_given after (given (λ w. w ∷ []) b ++ map_given before values)
            ≡ given (λ w. w ∷ []) (both v) ++ map_given both values) [
              | none ↦ λ e. rw e rest
              | some w ↦ λ e. rw e (ap (λ others. given (λ u. u ∷ []) (after w) ++ others) rest)
            ]
      (h v)

module _ {S Seed : Type 0} (c : Codec S Seed) (env : Env) (seed : Seed)
    (protection : String → DataProtection S) where
  -- The value that is written in the place of a value: what `unmask` or `decrypt` of the getter's
  -- object gives (on an error its input), protected by the active version. A hash, and a value
  -- without a configuration for its version, are not written.
  abbrev pub renewed_by : String → Value → Accessor S → Option Json
  renewed_by path value undefined =
      processed_json c env seed protection
        (data_protection_setter c env seed (protection path) value)
  renewed_by path value (plain v) = none
  renewed_by path value (unmaskable message settings version) =
      processed_json c env seed protection (
        data_protection_setter c env seed (protection path)
          (unmask c env message settings (some version)))
  renewed_by path value (decryptable message settings version) =
      processed_json c env seed protection (
        data_protection_setter c env seed (protection path)
          (decrypt_value c env message settings (some version)))
  renewed_by path value (verifiable message settings version) = none

  abbrev pub renewed : String → Json → Option Json
  renewed path null = none
  renewed path (leaf v) = renewed_by path v (data_protection_getter c env (protection path) v)
  renewed path (object fields) = some (object fields)

  renewed_both :
      (paths : List String) (path : String) (v : Json)
      → renewed path v
        ≡ then_answer
            (protect_value c env seed protection path)
            (reverse_value c env seed protection paths true path v)
  unfolding reverse_value protect_value
  renewed_both paths path null = refl
  renewed_both paths path (leaf v) =
      elim (data_protection_getter c env (protection path) v)
        as (λ a.
          renewed_by path v a
          ≡ then_answer (protect_value c env seed protection path)
              (Rotate.reversed c env seed protection paths true v a)) [
                | undefined ↦ refl
                | plain v' ↦ refl
                | unmaskable m s version ↦ refl
                | decryptable m s version ↦ refl
                | verifiable m s version ↦ refl
              ]
  renewed_both paths path (object fields) = refl

  module _ (configured : (path : String) (v : Json) → throws c env seed protection path v ≡ false)
      (paths : List String) where
    abbrev read_back : Fields → Json
    read_back fields = transform_by_data_protection c env seed protection paths true (object fields)

    abbrev written : Fields → Json
    written fields =
        transform_shallow_by_paths (protect_value c env seed protection) paths
          (object (fields_of (read_back fields)))

    -- What `upsertManyById` makes of a document that was read back.
    abbrev rotated : Entry → Entry
    rotated e = record e { obj = fields_of (written e.obj) }

    protect_fields-some :
        (fields : Fields)
        → protect_fields c env seed protection paths fields
          ≡ some (
              fields_of (
                transform_shallow_by_paths
                  (protect_value c env seed protection)
                  paths
                  (object fields)))
    unfolding protect_fields
    protect_fields-some fields =
        ap (Rotate.protected_fields c env seed protection paths)
          (protect_by_paths-some c env seed protection configured paths (object fields))

    written-object : (fields : Fields) → object (fields_of (written fields)) ≡ written fields
    written-object fields = sym (
        transform-object (protect_value c env seed protection) paths (fields_of (read_back fields)))

    read_back-object : (fields : Fields) → object (fields_of (read_back fields)) ≡ read_back fields
    unfolding transform_by_data_protection
    read_back-object fields =
        sym (transform-object (reverse_value c env seed protection paths true) paths fields)

    protect_entries-map :
        (d : Driver UpdateOne) (update_one : UpdateOne → d.Store → d.Store × Bool)
        (entries : List Entry)
        → protect_entries d update_one
            (protect_fields c env seed protection paths)
            (map (on_document c env seed protection paths) entries)
          ≡ some (map rotated entries)
    unfolding protect_entries on_document
    protect_entries-map d update_one [] = refl
    protect_entries-map d update_one (e ∷ entries) =
        rw
          (
            protect_fields-some (fields_of (read_back e.obj)),
            protect_entries-map d update_one entries,
          )
          refl

  module _ (configured : (path : String) (v : Json) → throws c env seed protection path v ≡ false)
      (before after : List String) (path : String) (keys : List String) where
    -- At the keys of the path stand the renewed values, and the other keys have what they had.
    abbrev pub IsRenewed : Fields → Fields → Type 0
    IsRenewed fields content =
        (values_at (keys_of path) (object content)
          ≡ map_given (renewed path) (values_at (keys_of path) (object fields)))
        × (values_at keys (object content) ≡ values_at keys (object fields))

    rotated-IsRenewed :
        IsProper (keys_of path)
        → All (λ other. Apart (keys_of path) (keys_of other)) (before ++ after)
        → All (λ other. Apart keys (keys_of other)) (before ++ path ∷ after)
        → (fields : Fields)
        → IsRenewed fields (fields_of (written configured (before ++ path ∷ after) fields))
    unfolding transform_by_data_protection
    rotated-IsRenewed proper own apart fields =
        let paths = before ++ path ∷ after in
        let whole = written-object configured paths fields in
        let back = read_back-object configured paths fields in
        (
          ap (values_at (keys_of path)) whole
              ∙ changed (protect_value c env seed protection) before after path _ proper own
              ∙ ap
                  (λ v.
                    map_given (protect_value c env seed protection path)
                      (values_at (keys_of path) v))
                  back
              ∙ ap (map_given (protect_value c env seed protection path)) (
                  changed (reverse_value c env seed protection paths true) before after path
                    (object fields) proper own)
              ∙ map_given_twice (reverse_value c env seed protection paths true path) _
                  (renewed path) _ (renewed_both paths path),
          ap (values_at keys) whole
              ∙ kept (protect_value c env seed protection) keys paths _ apart
              ∙ ap (values_at keys) back
              ∙ kept (reverse_value c env seed protection paths true) keys paths (object fields)
                  apart,
        )

    module _ (d : Driver UpdateOne) (update_one : UpdateOne → d.Store → d.Store × Bool)
        (update_one_lem : (op : UpdateOne) (s : d.Store)
          → (update_one op s).1 ≡ true
          → d.IsApplied op (update_one op s).0) where
      -- An update of the document has been applied that renews its protected values.
      abbrev pub HasRenewed : d.Store → Entry → Type 0
      HasRenewed s e =
          (content : Fields) × d.IsApplied (update_of update (record e { obj = content })) s
          × IsRenewed e.obj content

      applied-HasRenewed :
          ((fields : Fields)
            → IsRenewed fields (fields_of (written configured (before ++ path ∷ after) fields)))
          → (entries : List Entry) (s : d.Store)
          → All
              (λ op. d.IsApplied op s)
              (updates_of update (map (rotated configured (before ++ path ∷ after)) entries))
          → All (HasRenewed s) entries
      unfolding updates_of
      applied-HasRenewed renews [] s h = tt
      applied-HasRenewed renews (e ∷ entries) s h = (
        (fields_of (written configured (before ++ path ∷ after) e.obj), h.0, renews e.obj),
        applied-HasRenewed renews entries s h.1,
      )

      upserted-AreApplied :
          (protect : Fields → Option Fields) (entries to_write : List Entry) (s : d.Store)
          (r : d.Store × End)
          → protect_entries d update_one protect entries ≡ some to_write
          → r.1 ≡ returned
          → Ends d update_one update_one_lem protect true update entries s r
          → All (λ op. d.IsApplied op r.0) (updates_of update to_write)
      upserted-AreApplied protect entries to_write s r protects back (inl (w, some_w, _, applied)) =
          let same : w ≡ to_write = cc in rw (← same) applied
      upserted-AreApplied protect entries to_write s r protects back (inr (inl (nothing, _))) =
          absurd (cc)
      upserted-AreApplied protect entries to_write s r protects back
            (inr (inr (_, _, unsettled, _))) =
          absurd (cc)

      -- A rotation of the protection keys that returns, with a configuration for each protected
      -- path, has written every document that it collected before its write: an update of the
      -- document has been applied in which, at the keys of a protected path, there is in the place of
      -- a value what `unmask` or `decrypt` gives for it, protected by the active version, and nothing
      -- in the place of a hash or of a value whose version has no configuration; at keys that are no
      -- protected path's the values are the document's.
      -- The driver applies the operations of the calls that return; the keys part from those of the
      -- other paths at different names, and a path has a last key that is no star.
      pub seed_rotate_protection_keys-HasRenewed :
          (arrived : List Entry → List Entry) (mode : Mode) (batch_size limit : ℕ)
          (found : List Entry) (s : d.Store)
          → IsProper (keys_of path)
          → All (λ other. Apart (keys_of path) (keys_of other)) (before ++ after)
          → All (λ other. Apart keys (keys_of other)) (before ++ path ∷ after)
          → (seed_rotate_protection_keys c env seed protection
              (before ++ path ∷ after)
              d
              update_one
              arrived
              true
              mode
              batch_size
              limit
              found
              s).1
            ≡ returned
          → All
              (HasRenewed
                (seed_rotate_protection_keys c env seed protection
                  (before ++ path ∷ after)
                  d
                  update_one
                  arrived
                  true
                  mode
                  batch_size
                  limit
                  found
                  s).0)
              (collected mode arrived
                (map (λ call. call.0) (read_documents mode batch_size limit found)))
      unfolding seed_rotate_protection_keys
      seed_rotate_protection_keys-HasRenewed arrived mode batch_size limit found s proper own apart
            back =
          let paths = before ++ path ∷ after in
          let documents =
            collected mode arrived
              (map (λ call. call.0) (read_documents mode batch_size limit found)) in
          let reversed = map (on_document c env seed protection paths) documents in
          applied-HasRenewed (rotated-IsRenewed proper own apart) documents _ (
            upserted-AreApplied (protect_fields c env seed protection paths) reversed
              (map (rotated configured paths) documents) s _
              (protect_entries-map configured paths d update_one documents) back
              (upsert_many_by_id-Ends d update_one update_one_lem
                (protect_fields c env seed protection paths) true update reversed s))
