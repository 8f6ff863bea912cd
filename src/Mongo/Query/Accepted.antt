-- ===== src/Mongo/Query/Accepted.antt =====
-- Which documents the queries accept.
use datamaster.Prelude.{
  ℕ, ◌≡◌, refl, sym, ap, ◌∙◌, Bool, true, false, ◌&&◌, Option, none, some, [], ◌∷◌, String,
  String_discrete, if_pos, if_neg, ltb,
}
use datamaster.JsMap
use datamaster.Mongo.Query.{
  Language, IsMongo, matches, combine_filters, page_filter, cursor_query, cursor_page_query, Filter,
}

and_swap : (a b c : Bool) → (a && (b && c)) ≡ (b && (a && c))
and_swap true b c = refl
and_swap false true c = refl
and_swap false false c = refl

and_true : (a : Bool) → (a && true) ≡ a
and_true true = refl
and_true false = refl

and_comm : (a b : Bool) → (a && b) ≡ (b && a)
and_comm true b = sym (and_true b)
and_comm false true = refl
and_comm false false = refl

module _ {D : Type 0} (q : Language D) (mongo : IsMongo q) where
  matches-combine_filters :
      (search filter : Filter q) (d : D)
      → matches q (combine_filters q search filter) d ≡ (matches q search d && matches q filter d)
  unfolding matches combine_filters
  matches-combine_filters [] filter d = refl
  matches-combine_filters (s ∷ search) [] d = sym (and_true _)
  matches-combine_filters (s ∷ search) (f ∷ filter) d =
      and_true _ ∙ mongo.and_lem (s ∷ search) (f ∷ filter) d

  -- A key that is set takes the place of its old condition.
  matches-set :
      (key : String) (clause : q.Clause) (filter : Filter q) (d : D)
      → matches q (JsMap.set String_discrete key clause filter) d
        ≡ (q.accepts key clause d && matches q (JsMap.delete String_discrete key filter) d)
  unfolding matches JsMap.set JsMap.delete
  matches-set key clause [] d = refl
  matches-set key clause ((j, old) ∷ filter) d = elim (String_discrete j key) [
    | yes p ↦
        rw (if_pos (String_discrete j key) p, if_pos (String_discrete j key) p)
          (ap (λ k. q.accepts k clause d && matches q filter d) p)
    | no p ↦
        rw (if_neg (String_discrete j key) p, if_neg (String_discrete j key) p)
          (ap (λ b. q.accepts j old d && b) (matches-set key clause filter d)
            ∙ and_swap (q.accepts j old d) (q.accepts key clause d) _)
  ]

  -- The conditions of a search, if there is one.
  abbrev pub matches_search : Option (Filter q) → D → Bool
  matches_search none d = true
  matches_search (some search) d = matches q search d

  matches-page_filter :
      (search : Option (Filter q)) (filter : Filter q) (d : D)
      → matches q (page_filter q search filter) d ≡ (matches_search search d && matches q filter d)
  unfolding page_filter
  matches-page_filter none filter d = refl
  matches-page_filter (some search) filter d = matches-combine_filters search filter d

  matches-cursor_query :
      (cursor : ℕ) (filter : Filter q) (d : D)
      → matches q (cursor_query q (some cursor) filter) d
        ≡ (ltb cursor (q.id d) && matches q (JsMap.delete String_discrete "_id" filter) d)
  unfolding cursor_query
  matches-cursor_query cursor filter d =
      matches-set "_id" (q.greater cursor) filter d
      ∙ ap (λ b. b && matches q (JsMap.delete String_discrete "_id" filter) d)
          (mongo.id_lem cursor d)

  -- The query of a first page accepts the documents that match both the search and the filter. That
  -- of a page after a cursor accepts those after the cursor that match the combined filter but for
  -- a condition of its own on `_id`, which the cursor takes the place of.
  pub matches-cursor_page_query :
      (search : Option (Filter q)) (filter : Filter q) (cursor : ℕ) (d : D)
      → (matches q (cursor_page_query q search filter none) d
          ≡ (matches_search search d && matches q filter d))
        × (matches q (cursor_page_query q search filter (some cursor)) d ≡ (
            ltb cursor (q.id d)
            && matches q (JsMap.delete String_discrete "_id" (page_filter q search filter)) d))
  unfolding cursor_page_query cursor_query
  matches-cursor_page_query search filter cursor d = (
    matches-page_filter search filter d,
    matches-cursor_query cursor (page_filter q search filter) d,
  )
