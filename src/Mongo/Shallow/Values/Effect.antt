-- ===== src/Mongo/Shallow/Values/Effect.antt =====
-- What a walk, and a transform by several paths, does to the values at the keys of a path.
use mathlib.Core.Path.{fun_ext}
use datamaster.Prelude.{
  ◌≡◌, refl, sym, ap, ◌∙◌, Option, some, List, [], ◌∷◌, ◌++◌, append-nil, String, Bool-cases, inl,
  inr, All,
}
use datamaster.Mongo.Shallow.{
  Json, null, leaf, object, is_star, opened, on_field, traverse, keys_of,
  transform_shallow_by_paths,
}
use datamaster.Mongo.Shallow.Values.{
  values_of, values_of_each, values_at, given, map_given, IsProper, Apart, values_of_each-on_each,
  values_of-on_field, values_of-on_field_other, values_of_each-map_given, values_of-map_given,
}

values_at-opened :
    (key : String) (keys : List String) (w : Json)
    → values_at (key ∷ keys) (opened w) ≡ values_at (key ∷ keys) w
unfolding values_at values_of values_of_each
values_at-opened key keys null = elim (Bool-cases (is_star key)) [
  | inl e ↦ rw e refl
  | inr e ↦ rw e refl
]
values_at-opened key keys (leaf v) = refl
values_at-opened key keys (object fields) = refl

module _ (transform : Json → Option Json) where
  -- A walk to the keys changes the values there as the transform says.
  values_at-traverse :
      (keys : List String) (v : Json)
      → IsProper keys
      → values_at keys (traverse transform keys v) ≡ map_given transform (values_at keys v)
  unfolding values_at traverse map_given
  values_at-traverse [] v p = elim p [ ]
  values_at-traverse (key ∷ keys) null p = refl
  values_at-traverse (key ∷ keys) (leaf v) p = refl
  values_at-traverse (key ∷ []) (object fields) p = rw p (
      values_of-on_field (values_at []) transform key fields
      ∙ values_of-map_given (values_at []) transform (λ w. given (values_at []) (transform w))
          (λ w. sym (append-nil (given (λ u. u ∷ []) (transform w)))) key fields)
  values_at-traverse (key ∷ next ∷ keys) (object fields) p =
      let walked =
        λ (w : Json). values_at (next ∷ keys) (traverse transform (next ∷ keys) (opened w)) in
      let same = λ (w : Json).
        values_at-traverse (next ∷ keys) (opened w) p
        ∙ ap (map_given transform) (values_at-opened next keys w) in
      elim (Bool-cases (is_star key)) [
        | inl star ↦ rw star (
            values_of_each-on_each (values_at (next ∷ keys)) _ fields
            ∙ values_of_each-map_given (values_at (next ∷ keys)) transform walked same fields)
        | inr name ↦ rw name (
            values_of-on_field (values_at (next ∷ keys)) _ key fields
            ∙ values_of-map_given (values_at (next ∷ keys)) transform walked same key fields)
      ]

  -- A walk to other keys leaves them.
  values_at-traverse-Apart :
      (keys others : List String) (v : Json)
      → Apart keys others
      → values_at keys (traverse transform others v) ≡ values_at keys v
  unfolding values_at traverse
  values_at-traverse-Apart [] others v a = elim a [ ]
  values_at-traverse-Apart (key ∷ keys) [] v a = elim a [ ]
  values_at-traverse-Apart (key ∷ keys) (other ∷ others) null a = refl
  values_at-traverse-Apart (key ∷ keys) (other ∷ others) (leaf v) a = refl
  values_at-traverse-Apart (key ∷ keys) (other ∷ others) (object fields) (inl (n, (m, ne))) =
      rw (n, m) (values_of-on_field_other (values_at keys) _ key other fields ne)
  values_at-traverse-Apart (key ∷ []) (other ∷ others) (object fields) (inr (same, a)) = elim a [ ]
  values_at-traverse-Apart (key ∷ next ∷ keys) (other ∷ []) (object fields) (inr (same, a)) =
      elim a [ ]
  values_at-traverse-Apart (key ∷ next ∷ keys) (other ∷ then_to ∷ others) (object fields)
        (inr (same, a)) =
      let read = values_at (next ∷ keys) in
      let walk = λ (w : Json). traverse transform (then_to ∷ others) (opened w) in
      let unchanged = fun_ext (λ (w : Json).
        values_at-traverse-Apart (next ∷ keys) (then_to ∷ others) (opened w) a
        ∙ values_at-opened next keys w) in
      elim (Bool-cases (is_star key)) [
        | inl star ↦
            rw (star, ap is_star (sym same) ∙ star)
              (values_of_each-on_each read walk fields
                ∙ ap (λ r. values_of_each r fields) unchanged)
        | inr name ↦
            rw (name, ap is_star (sym same) ∙ name)
              (ap (λ k. values_of read key (on_field (λ w. some (walk w)) k fields)) (sym same)
                ∙ values_of-on_field read (λ w. some (walk w)) key fields
                ∙ ap (λ r. values_of r key fields) unchanged)
      ]

module _ (transform : String → Json → Option Json) where
  -- Paths from which the keys are apart leave the values there.
  pub kept :
      (keys : List String) (paths : List String) (ret : Json)
      → All (λ path. Apart keys (keys_of path)) paths
      → values_at keys (transform_shallow_by_paths transform paths ret) ≡ values_at keys ret
  unfolding transform_shallow_by_paths
  kept keys [] ret a = refl
  kept keys (path ∷ paths) ret a =
      kept keys paths (traverse (transform path) (keys_of path) ret) a.1
      ∙ values_at-traverse-Apart (transform path) keys (keys_of path) ret a.0

  pub changed :
      (before after : List String) (path : String) (ret : Json)
      → IsProper (keys_of path)
      → All (λ other. Apart (keys_of path) (keys_of other)) (before ++ after)
      → values_at (keys_of path) (transform_shallow_by_paths transform (before ++ path ∷ after) ret)
        ≡ map_given (transform path) (values_at (keys_of path) ret)
  unfolding transform_shallow_by_paths
  changed [] after path ret p own =
      kept (keys_of path) after (traverse (transform path) (keys_of path) ret) own
      ∙ values_at-traverse (transform path) (keys_of path) ret p
  changed (other ∷ before) after path ret p own =
      changed before after path (traverse (transform other) (keys_of other) ret) p own.1
      ∙ ap (map_given (transform path))
          (values_at-traverse-Apart (transform other) (keys_of path) (keys_of other) ret own.0)

  -- At the keys of a path stands what its transform answers for the values that stood there (nothing
  -- where it answers undefined), and at keys that are no path's the values are as before. The keys
  -- part from those of the other paths at different names; a path has a last key that is no star.
  pub values_at-transform_shallow_by_paths :
      (before after : List String) (path : String) (keys : List String) (ret : Json)
      → IsProper (keys_of path)
      → All (λ other. Apart (keys_of path) (keys_of other)) (before ++ after)
      → All (λ other. Apart keys (keys_of other)) (before ++ path ∷ after)
      → (values_at
            (keys_of path)
            (transform_shallow_by_paths transform (before ++ path ∷ after) ret)
          ≡ map_given (transform path) (values_at (keys_of path) ret))
        × (values_at keys (transform_shallow_by_paths transform (before ++ path ∷ after) ret)
            ≡ values_at keys ret)
  values_at-transform_shallow_by_paths before after path keys ret p own a =
      (changed before after path ret p own, kept keys (before ++ path ∷ after) ret a)
