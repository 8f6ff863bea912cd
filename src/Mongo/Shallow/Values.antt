-- ===== src/Mongo/Shallow/Values.antt =====
-- Which values a transform by paths changes.
pub mod Effect
use datamaster.Prelude.{
  arith, ◌≡◌, ◌≢◌, refl, sym, ap, ◌∙◌, Bool, true, false, Option, none, some, List, [], ◌∷◌, ◌++◌,
  append_assoc, String, String_discrete, holds, Bool-cases, Option-cases, ◌⊎◌, inl, inr,
  if◌then◌else◌, All,
}
use datamaster.Mongo.Shallow.{
  Json, null, leaf, object, Fields, end, field, is_star, opened, set_or_delete, on_field, on_each,
  on_object, last_or, traverse, keys_of, transform_shallow_by_paths,
}

-- The values of a name, and those of all names, each read further by `read`.
unfoldable pub values_of : (Json → List Json) → String → Fields → List Json
values_of read key end = []
values_of read key (field name v fields) =
    let rest = values_of read key fields in
    if holds (String_discrete name key) then read v ++ rest else rest

unfoldable pub values_of_each : (Json → List Json) → Fields → List Json
values_of_each read end = []
values_of_each read (field name v fields) = read v ++ values_of_each read fields

abbrev pub of_object : (Fields → List Json) → Json → List Json
of_object read null = []
of_object read (leaf v) = []
of_object read (object fields) = read fields

-- All values at the keys; '*' is any name.
unfoldable pub values_at : List String → Json → List Json
unfolding is_star values_of values_of_each
values_at [] v = v ∷ []
values_at (key ∷ keys) v =
    of_object
      (λ fields.
        if is_star key
        then values_of_each (values_at keys) fields
        else values_of (values_at keys) key fields)
      v

abbrev pub given : (Json → List Json) → Option Json → List Json
given read none = []
given read (some v) = read v

-- What the transform answers for the values, where it answers something.
unfoldable pub map_given : (Json → Option Json) → List Json → List Json
map_given transform [] = []
map_given transform (v ∷ values) = given (λ w. w ∷ []) (transform v) ++ map_given transform values

-- There is a last key, and it is no star.
abbrev pub IsProper : List String → Type 0
IsProper [] = ⊥
IsProper (key ∷ []) = is_star key ≡ false
IsProper (key ∷ next ∷ keys) = IsProper (next ∷ keys)

-- The keys part at two different names.
abbrev pub Apart : List String → List String → Type 0
Apart [] keys = ⊥
Apart (key ∷ keys) [] = ⊥
Apart (key ∷ keys) (other ∷ others) =
    ((is_star key ≡ false) × ((is_star other ≡ false) × (key ≢ other)))
    ⊎ ((key ≡ other) × Apart keys others)

map_given-append :
    (transform : Json → Option Json) (l m : List Json)
    → map_given transform (l ++ m) ≡ map_given transform l ++ map_given transform m
unfolding map_given
map_given-append transform [] m = refl
map_given-append transform (v ∷ l) m =
    ap (λ rest. given (λ w. w ∷ []) (transform v) ++ rest) (map_given-append transform l m)
    ∙ sym (
        append_assoc (given (λ w. w ∷ []) (transform v)) (map_given transform l)
          (map_given transform m))

holds_equal : {A : Type 0} {a b : A} (d : Dec (a ≡ b)) → holds d ≡ true → a ≡ b
holds_equal (yes p) e = p
holds_equal (no p) e = absurd (cc)

holds_apart : {A : Type 0} {a b : A} (d : Dec (a ≡ b)) → a ≢ b → holds d ≡ false
holds_apart (yes p) ne = absurd (ne p)
holds_apart (no p) ne = refl

one_name :
    (name key other : String)
    → key ≢ other
    → holds (String_discrete name key) ≡ true
    → holds (String_discrete name other) ≡ false
one_name name key other ne here =
    let same = holds_equal (String_discrete name key) here in
    holds_apart (String_discrete name other) (λ p. ne (sym same ∙ p))

module _ (read : Json → List Json) where
  pub values_of_each-on_each :
      (change : Json → Json) (fields : Fields)
      → values_of_each read (on_each change fields) ≡ values_of_each (λ w. read (change w)) fields
  unfolding values_of_each on_each
  values_of_each-on_each change end = refl
  values_of_each-on_each change (field name v fields) =
      ap (λ rest. read (change v) ++ rest) (values_of_each-on_each change fields)

  pub values_of-on_field :
      (change : Json → Option Json) (key : String) (fields : Fields)
      → values_of read key (on_field change key fields)
        ≡ values_of (λ w. given read (change w)) key fields
  unfolding values_of on_field
  values_of-on_field change key end = refl
  values_of-on_field change key (field name v fields) =
      let rest = values_of-on_field change key fields in
      elim (Bool-cases (holds (String_discrete name key))) [
        | inl here ↦ elim (Option-cases (change v)) [
          | inl gone ↦ rw (here, gone) rest
          | inr (w, kept) ↦ rw (here, kept, here) (ap (λ others. read w ++ others) rest)
        ]
        | inr elsewhere ↦ rw (elsewhere, elsewhere) rest
      ]

  pub values_of-on_field_other :
      (change : Json → Option Json) (key other : String) (fields : Fields)
      → key ≢ other
      → values_of read key (on_field change other fields) ≡ values_of read key fields
  unfolding values_of on_field
  values_of-on_field_other change key other end ne = refl
  values_of-on_field_other change key other (field name v fields) ne =
      let rest = values_of-on_field_other change key other fields ne in
      elim (Bool-cases (holds (String_discrete name key))) [
        | inl here ↦
            rw (one_name name key other ne here, here) (ap (λ others. read v ++ others) rest)
        | inr elsewhere ↦ elim (Bool-cases (holds (String_discrete name other))) [
          | inl changed ↦ elim (Option-cases (change v)) [
            | inl gone ↦ rw (changed, gone, elsewhere) rest
            | inr (w, kept) ↦ rw (changed, kept, elsewhere) rest
          ]
          | inr kept ↦ rw (kept, elsewhere) rest
        ]
      ]

  module _ (transform : Json → Option Json) (read' : Json → List Json)
      (same : (w : Json) → read' w ≡ map_given transform (read w)) where
    pub values_of_each-map_given :
        (fields : Fields)
        → values_of_each read' fields ≡ map_given transform (values_of_each read fields)
    unfolding values_of_each map_given
    values_of_each-map_given end = refl
    values_of_each-map_given (field name v fields) =
        ap (λ here. here ++ values_of_each read' fields) (same v)
        ∙ ap (λ rest. map_given transform (read v) ++ rest) (values_of_each-map_given fields)
        ∙ sym (map_given-append transform (read v) (values_of_each read fields))

    pub values_of-map_given :
        (key : String) (fields : Fields)
        → values_of read' key fields ≡ map_given transform (values_of read key fields)
    unfolding values_of map_given
    values_of-map_given key end = refl
    values_of-map_given key (field name v fields) =
        elim (Bool-cases (holds (String_discrete name key))) [
          | inl here ↦ rw here (
              ap (λ first. first ++ values_of read' key fields) (same v)
              ∙ ap (λ rest. map_given transform (read v) ++ rest) (values_of-map_given key fields)
              ∙ sym (map_given-append transform (read v) (values_of read key fields)))
          | inr elsewhere ↦ rw elsewhere (values_of-map_given key fields)
        ]
