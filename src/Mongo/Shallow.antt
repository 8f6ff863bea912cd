-- ===== src/Mongo/Shallow.antt =====
-- processor/schema/transforms/shallow.ts: `transformShallowByPaths` on plain data, in place. An array
-- is an object whose names are its indices, and Maps are objects. `deleteMetadata` is left out.
pub mod Values
use Prim.Native.Char.{Char, code}
use datamaster.Prelude.{
  Bool, true, false, Option, none, some, List, [], ◌∷◌, String, String_discrete, holds, ◌==◌,
  if◌then◌else◌,
}
use datamaster.Protection.Version.{Value}

mutual
  pub data Json : Type 0 where
    null : Json
    leaf : Value → Json
    object : Fields → Json

  pub data Fields : Type 0 where
    end : Fields
    field : String → Json → Fields → Fields

-- `path.split('.')`
abbrev pub onto_first : Char → List String → List String
onto_first c [] = []
onto_first c (part ∷ parts) = String.◌∷◌ c part ∷ parts

unfoldable pub split_dots : String → List String
split_dots String.[] = "" ∷ []
split_dots (String.◌∷◌ c text) =
    let rest = split_dots text in if code c == b'.' then "" ∷ rest else onto_first c rest

unfoldable pub is_star : String → Bool
is_star key = holds (String_discrete key "*")

-- `if (keys[keys.length - 1] === '*') keys.length--`
unfoldable pub without_last_star : List String → List String
unfolding is_star
without_last_star [] = []
without_last_star (key ∷ []) = if is_star key then [] else key ∷ []
without_last_star (key ∷ next ∷ keys) = key ∷ without_last_star (next ∷ keys)

unfoldable pub keys_of : String → List String
unfolding split_dots without_last_star
keys_of path = without_last_star (split_dots path)

-- `defineNextDst`: what a walk goes into; null becomes an empty object or array.
abbrev pub opened : Json → Json
opened null = object end
opened (leaf v) = leaf v
opened (object fields) = object fields

-- `responseValidation`
abbrev pub set_or_delete : String → Option Json → Fields → Fields
set_or_delete name none fields = fields
set_or_delete name (some v) fields = field name v fields

unfoldable pub on_field : (Json → Option Json) → String → Fields → Fields
on_field change key end = end
on_field change key (field name v fields) =
    let rest = on_field change key fields in
    set_or_delete name (if holds (String_discrete name key) then change v else some v) rest

unfoldable pub on_each : (Json → Json) → Fields → Fields
on_each change end = end
on_each change (field name v fields) = field name (change v) (on_each change fields)

-- What has no fields has no value of the key.
abbrev pub on_object : (Fields → Fields) → Json → Json
on_object change null = null
on_object change (leaf v) = leaf v
on_object change (object fields) = object (change fields)

-- At the last key the transform answers, before it the walk goes on.
abbrev pub last_or : (Json → Option Json) → List String → (Json → Json) → Json → Option Json
last_or transform [] walk v = transform v
last_or transform (key ∷ keys) walk v = some (walk v)

-- A walk that comes to a text or to texts before its last key throws a TypeError in the code. Here it
-- leaves them: such data is outside of the model.
module _ (transform : Json → Option Json) where
  unfoldable pub traverse : List String → Json → Json
  unfolding is_star on_field on_each
  traverse [] v = v
  traverse (key ∷ keys) v =
      let walk = λ (w : Json). traverse keys (opened w) in
      on_object
        (λ fields.
          if is_star key
          then on_each walk fields
          else on_field (last_or transform keys walk) key fields)
        v

unfoldable pub transform_shallow_by_paths :
    (String → Json → Option Json) → List String → Json → Json
unfolding traverse keys_of
transform_shallow_by_paths transform [] ret = ret
transform_shallow_by_paths transform (path ∷ paths) ret =
    transform_shallow_by_paths transform paths (traverse (transform path) (keys_of path) ret)
