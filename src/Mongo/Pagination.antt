-- ===== src/Mongo/Pagination.antt =====
-- processor/schema/statics/pagination.ts: `paginate` and `paginateCursor`. The query that Mongo
-- runs, with its filter, its sort and the projection, is the list of the documents that match, in
-- that order; `skip` and `limit` are `drop` and `take` on it.
pub mod Traversal
pub mod Offset
use datamaster.Prelude.{
  ℕ, ◌+◌, ◌-◌, ◌*◌, ◌/◌, Bool, true, false, Option, none, some, List, [], ◌∷◌, take, drop, length,
  ltb, if◌then◌else◌,
}

pub record Paginated (D : Type 0) : Type 0 where
  pub docs : List D
  pub page : ℕ
  pub limit : ℕ
  pub total : ℕ
  pub total_pages : ℕ
  pub has_next_page : Bool
  pub has_prev_page : Bool

-- `Math.ceil(total / limit)`, for a limit above 0.
abbrev pub ceil_div : ℕ → ℕ → ℕ
ceil_div total limit = (total + (limit - 1)) / limit

-- `paginate`: `page` and `limit` are at least 1. `found` is what matches.
unfoldable pub paginate : {D : Type 0} → ℕ → ℕ → List D → Paginated D
paginate page limit found = record {
  docs = take limit (drop ((page - 1) * limit) found);
  page = page;
  limit = limit;
  total = length found;
  total_pages = ceil_div (length found) limit;
  has_next_page = ltb (page * limit) (length found);
  has_prev_page = ltb 1 page;
}

pub record CursorPage (D : Type 0) : Type 0 where
  pub docs : List D
  pub next_cursor : Option ℕ
  pub has_next_page : Bool

module _ {D : Type 0} (id : D → ℕ) where
  -- `{ _id: { $gt: cursor } }`
  unfoldable pub after : Option ℕ → List D → List D
  after none found = found
  after (some cursor) [] = []
  after (some cursor) (d ∷ found) =
      let rest = after (some cursor) found in if ltb cursor (id d) then d ∷ rest else rest

  -- `results[results.length - 1]._id`
  abbrev pub last_id : List D → Option ℕ
  last_id [] = none
  last_id (d ∷ []) = some (id d)
  last_id (d ∷ e ∷ l) = last_id (e ∷ l)

  -- `paginateCursor`: `limit` is at least 1. `found` is what matches, by `_id`; identifiers are
  -- numbers in the order of the database.
  unfoldable pub paginate_cursor : ℕ → Option ℕ → List D → CursorPage D
  paginate_cursor limit cursor found =
      let docs = take (limit + 1) (after cursor found) in
      if ltb limit (length docs)
      then record {
        docs = take limit docs;
        next_cursor = last_id (take limit docs);
        has_next_page = true;
      }
      else record { docs = docs; next_cursor = none; has_next_page = false }

  -- A client that follows `nextCursor`, for so many pages.
  unfoldable pub follow : ℕ → ℕ → Option ℕ → List D → List (List D)
  follow ℕ.zero limit cursor found = []
  follow (ℕ.suc pages) limit cursor found =
      let page = paginate_cursor limit cursor found in
      elim page.next_cursor [
        | none ↦ page.docs ∷ []
        | some next ↦ page.docs ∷ follow pages limit (some next) found
      ]
