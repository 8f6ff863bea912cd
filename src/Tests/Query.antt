-- ===== src/Tests/Query.antt =====
-- Queries over numbers as documents, each its own identifier.
use datamaster.Prelude.{
  ℕ, ◌≡◌, refl, Bool, true, false, ◌&&◌, ◌==◌, none, some, List, [], ◌∷◌, String, String_discrete,
  ltb,
}
use datamaster.JsMap
use datamaster.Mongo.Query.{Language, IsMongo, matches, page_filter, cursor_page_query}
use datamaster.Mongo.Query.Accepted.{matches-cursor_page_query}

all : List (String × (ℕ → Bool)) → ℕ → Bool
all [] d = true
all ((key, test) ∷ filter) d = test d && all filter d

-- A clause is its test; the key is left out.
abbrev tests : Language ℕ
tests = record {
  Clause = ℕ → Bool;
  id = λ d. d;
  accepts = λ key test d. test d;
  greater = λ cursor d. ltb cursor d;
  both = λ search filter d. all search d && all filter d;
}

matches-all : (filter : List (String × (ℕ → Bool))) (d : ℕ) → matches tests filter d ≡ all filter d
unfolding matches all
matches-all [] d = refl
matches-all ((key, test) ∷ filter) d = rw (matches-all filter d) refl

tests-IsMongo : IsMongo tests
tests-IsMongo = record {
  and_lem = λ search filter d. rw (matches-all search d, matches-all filter d) refl;
  id_lem = λ cursor d. refl;
}

-- Below 5, and among the filter's own identifiers.
abbrev small : List (String × (ℕ → Bool))
small = ("_id", (λ d. d == 3)) ∷ ("size", (λ d. ltb d 5)) ∷ []

-- The page after the cursor 3 has 4, though the filter has the identifier 3 alone.
matches-cursor_page_query_example :
    (matches tests (cursor_page_query tests none small none) 4 ≡ false)
    × (matches tests (cursor_page_query tests none small (some 3)) 4 ≡ true)
unfolding matches JsMap.delete String_discrete page_filter
matches-cursor_page_query_example = matches-cursor_page_query tests tests-IsMongo none small 3 4
