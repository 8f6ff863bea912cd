-- ===== src/Mongo/Query.antt =====
-- processor/schema/statics/pagination.ts: the queries of `paginate` and `paginateCursor`.
pub mod Accepted
use datamaster.Prelude.{
  ℕ, ◌≡◌, Bool, true, false, ◌&&◌, Option, none, some, List, [], ◌∷◌, String, String_discrete, ltb,
  if◌then◌else◌,
}
use datamaster.JsMap

-- The query language of MongoDB, as far as the module builds queries: a filter has a condition for
-- each of its keys, and a document matches it by all of them.
pub record Language (D : Type 0) : Type 1 where
  pub Clause : Type 0
  pub id : D → ℕ
  pub accepts : String → Clause → D → Bool
  -- `{ $gt: cursor }`, and the value of `$and`.
  pub greater : ℕ → Clause
  pub both : List (String × Clause) → List (String × Clause) → Clause

module _ {D : Type 0} (q : Language D) where
  abbrev pub Filter : Type 0
  Filter = List (String × q.Clause)

  unfoldable pub matches : Filter → D → Bool
  matches [] d = true
  matches ((key, clause) ∷ filter) d = q.accepts key clause d && matches filter d

  -- What MongoDB does on the two keys that the module adds.
  pub record IsMongo : Type 0 where
    pub and_lem :
        (search filter : Filter) (d : D)
        → q.accepts "$and" (q.both search filter) d ≡ (matches search d && matches filter d)
    pub id_lem : (cursor : ℕ) (d : D) → q.accepts "_id" (q.greater cursor) d ≡ ltb cursor (q.id d)

  -- `combineFilters`
  unfoldable pub combine_filters : Filter → Filter → Filter
  combine_filters [] filter = filter
  combine_filters (s ∷ search) [] = s ∷ search
  combine_filters (s ∷ search) (f ∷ filter) = ("$and", q.both (s ∷ search) (f ∷ filter)) ∷ []

  -- The search filter, from `buildSearchFilter`, if there is a search.
  unfoldable pub page_filter : Option Filter → Filter → Filter
  unfolding combine_filters
  page_filter none filter = filter
  page_filter (some search) filter = combine_filters search filter

  -- `query` of `paginateCursor`
  unfoldable pub cursor_query : Option ℕ → Filter → Filter
  cursor_query none filter = filter
  cursor_query (some cursor) filter = JsMap.set String_discrete "_id" (q.greater cursor) filter

  unfoldable pub cursor_page_query : Option Filter → Filter → Option ℕ → Filter
  unfolding page_filter cursor_query
  cursor_page_query search filter cursor = cursor_query cursor (page_filter search filter)
