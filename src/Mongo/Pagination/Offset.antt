-- ===== src/Mongo/Pagination/Offset.antt =====
-- `paginate` of pagination.ts: what it says of the next page.
use datamaster.Prelude.{
  ℕ, zero, suc, ◌+◌, ◌-◌, ◌*◌, ◌≤◌, ◌<◌, ◌≡◌, refl, sym, ◌∙◌, List, [], ◌∷◌, take, drop, length,
  ltb, arith,
}
use datamaster.Mongo.Pagination.{paginate}

nonempty-drop : {D : Type 0} (n : ℕ) (l : List D) → ltb 0 (length (drop n l)) ≡ ltb n (length l)
nonempty-drop zero l = refl
nonempty-drop (suc n) [] = ground arith
nonempty-drop (suc n) (x ∷ l) = nonempty-drop n l ∙ ground arith

nonempty-take :
    {D : Type 0} (n : ℕ) (l : List D) → 0 < n → ltb 0 (length (take n l)) ≡ ltb 0 (length l)
nonempty-take zero l h = absurd (omega arith)
nonempty-take (suc n) [] h = refl
nonempty-take (suc n) (x ∷ l) h = ground arith

length-take-le : {D : Type 0} (n : ℕ) (l : List D) → length (take n l) ≤ n
length-take-le zero l = omega arith
length-take-le (suc n) [] = omega arith
length-take-le (suc n) (x ∷ l) = let h = length-take-le n l in omega arith

-- `paginate` says that there is a next page exactly if the next page has documents, and that there
-- is a previous one exactly if the page is not the first; and a page has at most `limit` documents.
pub has_next_page-paginate :
    {D : Type 0} (page limit : ℕ) (found : List D)
    → 0 < limit
    → ((paginate page limit found).has_next_page
        ≡ ltb 0 (length (paginate (page + 1) limit found).docs))
      × ((paginate page limit found).has_prev_page ≡ ltb 1 page)
      × (length (paginate page limit found).docs ≤ limit)
unfolding paginate
has_next_page-paginate page limit found h =
    let same : page + 1 - 1 ≡ page = omega arith in
    (
      rw same (
          sym (
            nonempty-take limit (drop (page * limit) found) h
            ∙ nonempty-drop (page * limit) found)),
      refl,
      length-take-le limit (drop ((page - 1) * limit) found),
    )
