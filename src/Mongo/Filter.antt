-- ===== src/Mongo/Filter.antt =====
-- processor/schema/transforms/filter.ts: `protectFilterByPaths`, which turns the plain values of a
-- query's filter into their masked form.
pub mod Meaning
pub mod Masks
pub mod Conditions
pub mod Fields
pub mod Matched
use datamaster.Prelude.{
  Bool, true, false, Option, none, some, List, [], ◌∷◌, map, String, String_discrete, holds,
  if◌then◌else◌,
}
use datamaster.Storage.Encryption.{Env}
use datamaster.Protection.Version.{Value, one, many}
use datamaster.Protection.Values.{
  Codec, Config, DataProtection, Strategy, masked, encrypted, hashed, config_of, mask,
}

-- What a filter asks of a field: null or undefined, a value, `{ $eq: … }` and `{ $in: … }` alone, or
-- anything else, as its text.
pub data Condition : Type 0 where
  nothing : Condition
  plain only_eq : Value → Condition
  only_in : List Value → Condition
  other : String → Condition

-- A filter: what stands under `$or`, `$and` and `$nor`, and its fields, each once.
mutual
  pub data Filter : Type 0 where
    filter : Branches → Branches → Branches → List (String × Condition) → Filter

  pub data Branches : Type 0 where
    absent : Branches
    end : Branches
    branch : Filter → Branches → Branches

-- The two errors, with their path.
pub data FilterError : Type 0 where
  unsafe_strategy unsupported_operator : String → FilterError

pub data Attempt (A : Type 0) : Type 0 where
  done : A → Attempt A
  thrown : FilterError → Attempt A

abbrev pub and_then : {A B : Type 0} → Attempt A → (A → Attempt B) → Attempt B
and_then (done a) next = next a
and_then (thrown e) next = thrown e

-- The parts of a filter, in the order in which they are made; the first error ends it.
abbrev pub combined :
    Attempt Branches
    → Attempt Branches
    → Attempt Branches
    → Attempt (List (String × Condition))
    → Attempt Filter
combined (thrown e) ands nors fields = thrown e
combined (done ors) (thrown e) nors fields = thrown e
combined (done ors) (done ands) (thrown e) fields = thrown e
combined (done ors) (done ands) (done nors) (thrown e) = thrown e
combined (done ors) (done ands) (done nors) (done fields) = done (filter ors ands nors fields)

-- `activeConfig?.strategy !== 'mask'`
abbrev pub settings_of_mask : {S : Type 0} → Strategy → S → Option S
settings_of_mask masked settings = some settings
settings_of_mask encrypted settings = none
settings_of_mask hashed settings = none

abbrev pub mask_settings : {S : Type 0} → Option (Config S) → Option S
mask_settings none = none
mask_settings (some config) = settings_of_mask config.strategy config.settings

module _ {S Seed : Type 0} (c : Codec S Seed) (env : Env)
    (protection : String → DataProtection S) where
  -- `filter[path] = mask(…)` and its two kin.
  unfoldable pub masked_condition : String → S → Condition → Attempt Condition
  unfolding mask
  masked_condition path settings nothing = done nothing
  masked_condition path settings (plain (one text)) =
      done (plain (mask c env (one text) settings (some (protection path).active_version)))
  masked_condition path settings (plain (many texts)) = thrown (unsupported_operator path)
  masked_condition path settings (only_eq (one text)) =
      done (only_eq (mask c env (one text) settings (some (protection path).active_version)))
  masked_condition path settings (only_eq (many texts)) = thrown (unsupported_operator path)
  masked_condition path settings (only_in entries) = done (
      only_in
        (map (λ entry. mask c env entry settings (some (protection path).active_version)) entries))
  masked_condition path settings (other text) = thrown (unsupported_operator path)

  abbrev pub masked_or_unsafe : String → Option S → Condition → Attempt Condition
  masked_or_unsafe path none condition = thrown (unsafe_strategy path)
  masked_or_unsafe path (some settings) condition = masked_condition path settings condition

  unfoldable pub protect_condition : String → Condition → Attempt Condition
  unfolding config_of masked_condition
  protect_condition path nothing = done nothing
  protect_condition path condition =
      masked_or_unsafe path
        (mask_settings (config_of (protection path) (protection path).active_version)) condition

  -- One round of the loop over the paths.
  unfoldable pub protect_path :
      String → List (String × Condition) → Attempt (List (String × Condition))
  unfolding protect_condition
  protect_path path [] = done []
  protect_path path ((name, condition) ∷ fields) =
      and_then
        (if holds (String_discrete name path)
          then protect_condition path condition
          else done condition)
        (λ asked. and_then (protect_path path fields) (λ rest. done ((name, asked) ∷ rest)))

  unfoldable pub protect_paths :
      List String → List (String × Condition) → Attempt (List (String × Condition))
  unfolding protect_path
  protect_paths [] fields = done fields
  protect_paths (path ∷ paths) fields =
      and_then (protect_path path fields) (λ asked. protect_paths paths asked)

  -- `protectFilterByPaths`: the branches first, then the fields.
  unfoldable mutual
    unfolding protect_paths

    pub protect_filter_by_paths : List String → Filter → Attempt Filter
    protect_filter_by_paths paths (filter ors ands nors fields) =
        combined (protect_branches paths ors) (protect_branches paths ands)
          (protect_branches paths nors) (protect_paths paths fields)

    pub protect_branches : List String → Branches → Attempt Branches
    protect_branches paths absent = done absent
    protect_branches paths end = done end
    protect_branches paths (branch f branches) =
        and_then (protect_filter_by_paths paths f) (λ f'.
          and_then (protect_branches paths branches) (λ branches'. done (branch f' branches')))
