-- ===== src/Mongo/Pagination/Traversal.antt =====
-- A traversal of the pages meets every document once.
use datamaster.Prelude.{
  ℕ, zero, suc, ◌+◌, ◌≤◌, ◌<◌, ◌≡◌, refl, sym, ap, ◌∙◌, true, false, Option, none, some, List, [],
  ◌∷◌, ◌++◌, take, drop, length, ltb, arith, All, All-map, All-middle, Bool-cases, inl, inr,
  append_assoc, append-nil,
}
use mathlib.Core.List.{flatten}
use mathlib.Core.Path.{subst}
use datamaster.Mongo.Pagination.{CursorPage, paginate_cursor, after, last_id, follow}

module _ {D : Type 0} (id : D → ℕ) where
  -- In the order of the identifiers, none twice.
  abbrev pub IsSorted : List D → Type 0
  IsSorted [] = Unit
  IsSorted (d ∷ found) = All (λ e. id d < id e) found × IsSorted found

  after-All :
      (cursor : ℕ) (found : List D)
      → All (λ e. cursor < id e) found
      → after id (some cursor) found ≡ found
  unfolding after
  after-All cursor [] h = refl
  after-All cursor (d ∷ found) h =
      let later : ltb cursor (id d) ≡ true = (let l = h.0 in ground arith) in
      rw later (ap (◌∷◌ d) (after-All cursor found h.1))

  above :
      (cursor : ℕ) (d : D) (found : List D)
      → cursor < id d
      → All (λ e. id d < id e) found
      → All (λ e. cursor < id e) found
  above cursor d found l h =
      All-map (λ e. id d < id e) (λ e. cursor < id e) (λ e l'. omega arith) found h

  after-suffix :
      (cursor : Option ℕ) (found : List D)
      → IsSorted found
      → (before : List D) × (found ≡ before ++ after id cursor found)
  unfolding after
  after-suffix none found h = ([], refl)
  after-suffix (some cursor) [] h = ([], refl)
  after-suffix (some cursor) (d ∷ found) h = elim (Bool-cases (ltb cursor (id d))) [
    | inl later ↦
        let l : cursor < id d = ground arith in
        ([], rw later (ap (◌∷◌ d) (sym (after-All cursor found (above cursor d found l h.0)))))
    | inr earlier ↦
        let (before, e) = after-suffix (some cursor) found h.1 in
        (d ∷ before, rw earlier (ap (◌∷◌ d) e))
  ]

  after-middle :
      (before found : List D) (d : D)
      → IsSorted (before ++ d ∷ found)
      → after id (some (id d)) (before ++ d ∷ found) ≡ found
  unfolding after
  after-middle [] found d h =
      let same : ltb (id d) (id d) ≡ false = ground arith in rw same (after-All (id d) found h.0)
  after-middle (b ∷ before) found d h =
      let (_, l, _) = All-middle (λ e. id b < id e) before d found h.0 in
      let earlier : ltb (id d) (id b) ≡ false = ground arith in
      rw earlier (after-middle before found d h.1)

nil_of_length : {D : Type 0} (l : List D) → length l ≤ 0 → l ≡ []
nil_of_length [] h = refl
nil_of_length (x ∷ l) h = absurd (omega arith)

take_short : {D : Type 0} (n : ℕ) (l : List D) → length l ≤ n → take n l ≡ l
take_short zero [] h = refl
take_short zero (x ∷ l) h = absurd (omega arith)
take_short (suc n) [] h = refl
take_short (suc n) (x ∷ l) h = ap (◌∷◌ x) (take_short n l (omega arith))

take-take : {D : Type 0} (n : ℕ) (l : List D) → take n (take (suc n) l) ≡ take n l
take-take zero l = refl
take-take (suc n) [] = refl
take-take (suc n) (x ∷ l) = ap (◌∷◌ x) (take-take n l)

length-take_long : {D : Type 0} (n : ℕ) (l : List D) → n < length l → n < length (take (suc n) l)
length-take_long n [] h = absurd (omega arith)
length-take_long zero (x ∷ l) h = omega arith
length-take_long (suc n) (x ∷ l) h = let l' = length-take_long n l (omega arith) in omega arith

append-take-drop : {D : Type 0} (n : ℕ) (l : List D) → take n l ++ drop n l ≡ l
append-take-drop zero l = refl
append-take-drop (suc n) [] = refl
append-take-drop (suc n) (x ∷ l) = ap (◌∷◌ x) (append-take-drop n l)

length-drop :
    {D : Type 0} (n : ℕ) (l : List D) → 0 < n → 0 < length l → length (drop n l) < length l
length-drop zero l p q = absurd (omega arith)
length-drop (suc n) [] p q = absurd (omega arith)
length-drop (suc n) (x ∷ l) p q = let h = length-drop-le n l in omega arith
  where
    length-drop-le : {D : Type 0} (n : ℕ) (l : List D) → length (drop n l) ≤ length l
    length-drop-le zero l = omega arith
    length-drop-le (suc n) [] = omega arith
    length-drop-le (suc n) (x ∷ l) = let h = length-drop-le n l in omega arith

module _ {D : Type 0} (id : D → ℕ) where
  -- The last document that `take` keeps.
  last_id-take :
      (n : ℕ) (l : List D)
      → 0 < n
      → n ≤ length l
      → (before : List D) × (d : D) × (last_id id (take n l) ≡ some (id d))
        × (l ≡ before ++ d ∷ drop n l)
  last_id-take zero l p q = absurd (omega arith)
  last_id-take (suc n) [] p q = absurd (omega arith)
  last_id-take (suc zero) (x ∷ l) p q = ([], x, refl, refl)
  last_id-take (suc (suc n)) (x ∷ []) p q = absurd (omega arith)
  last_id-take (suc (suc n)) (x ∷ y ∷ l) p q =
      let (before, d, e, e') = last_id-take (suc n) (y ∷ l) (omega arith) (omega arith) in
      (x ∷ before, d, e, ap (◌∷◌ x) e')

  -- The next page starts where the last one ended.
  after-next :
      (limit : ℕ) (cursor : Option ℕ) (found : List D)
      → IsSorted id found
      → 0 < limit
      → limit ≤ length (after id cursor found)
      → (next : ℕ) × (last_id id (take limit (after id cursor found)) ≡ some next)
        × (after id (some next) found ≡ drop limit (after id cursor found))
  after-next limit cursor found h p q =
      let rest = after id cursor found in
      let (before, whole) = after-suffix id cursor found h in
      let (init, d, last, split) = last_id-take limit rest p q in
      let parts : found ≡ (before ++ init) ++ d ∷ drop limit rest =
        whole
        ∙ ap (λ l. before ++ l) split
        ∙ sym (append_assoc before init (d ∷ drop limit rest)) in
      (
        id d,
        last,
        ap (after id (some (id d))) parts
            ∙ after-middle id (before ++ init) (drop limit rest) d (subst (IsSorted id) parts h),
      )

  follow-zero :
      (limit : ℕ) (cursor : Option ℕ) (found : List D)
      → length (after id cursor found) ≤ 0
      → flatten (follow id zero limit cursor found) ≡ after id cursor found
  unfolding follow flatten
  follow-zero limit cursor found q = sym (nil_of_length (after id cursor found) q)

  page_more :
      (limit : ℕ) (cursor : Option ℕ) (found : List D) (next : ℕ)
      → limit < length (after id cursor found)
      → last_id id (take limit (after id cursor found)) ≡ some next
      → paginate_cursor id limit cursor found ≡ record {
        docs = take limit (after id cursor found);
        next_cursor = some next;
        has_next_page = true;
      }
  unfolding paginate_cursor
  page_more limit cursor found next more last =
      let rest = after id cursor found in
      let plus : limit + 1 ≡ suc limit = omega arith in
      let full : ltb limit (length (take (suc limit) rest)) ≡ true =
        (let l = length-take_long limit rest more in ground arith) in
      rw (plus, full, take-take limit rest, last, paginate_cursor) refl

  page_last :
      (limit : ℕ) (cursor : Option ℕ) (found : List D)
      → length (after id cursor found) ≤ limit
      → paginate_cursor id limit cursor found
        ≡ record { docs = after id cursor found; next_cursor = none; has_next_page = false }
  unfolding paginate_cursor
  page_last limit cursor found last =
      let rest = after id cursor found in
      let whole : take (limit + 1) rest ≡ rest = take_short (limit + 1) rest (omega arith) in
      let fits : ltb limit (length rest) ≡ false = ground arith in
      rw (whole, fits, paginate_cursor) refl

  follow_more :
      (pages limit : ℕ) (cursor : Option ℕ) (found : List D) (next : ℕ)
      → limit < length (after id cursor found)
      → last_id id (take limit (after id cursor found)) ≡ some next
      → follow id (suc pages) limit cursor found
        ≡ take limit (after id cursor found) ∷ follow id pages limit (some next) found
  unfolding follow
  follow_more pages limit cursor found next more last =
      let page = page_more limit cursor found next more last in
      rw (page, follow)
        (ap (λ (x : CursorPage D). x.docs ∷ follow id pages limit (some next) found) page)

  follow_last :
      (pages limit : ℕ) (cursor : Option ℕ) (found : List D)
      → length (after id cursor found) ≤ limit
      → follow id (suc pages) limit cursor found ≡ after id cursor found ∷ []
  unfolding follow
  follow_last pages limit cursor found last =
      let page = page_last limit cursor found last in
      rw (page, follow) (ap (λ (x : CursorPage D). x.docs ∷ []) page)

  -- The documents of the pages that a client gets when it follows the cursors are, in order, those
  -- after the cursor that it starts with, each once: for identifiers in order, a limit above 0, and
  -- no more pages needed than there are documents.
  pub flatten-follow :
      (pages limit : ℕ) (cursor : Option ℕ) (found : List D)
      → IsSorted id found
      → 0 < limit
      → length (after id cursor found) ≤ pages
      → flatten (follow id pages limit cursor found) ≡ after id cursor found
  unfolding flatten
  flatten-follow zero limit cursor found h p q = follow-zero limit cursor found q
  flatten-follow (suc pages) limit cursor found h p q =
      elim (Bool-cases (ltb limit (length (after id cursor found)))) [
        | inl more ↦
            let rest = after id cursor found in
            let l : limit < length rest = ground arith in
            let (next, last, starts) = after-next limit cursor found h p (omega arith) in
            let shorter = length-drop limit rest p (omega arith) in
            let bound : length (after id (some next) found) ≤ pages =
              subst (λ r. length r ≤ pages) (sym starts) (omega arith) in
            ap flatten (follow_more pages limit cursor found next l last)
            ∙ ap (λ r. take limit rest ++ r)
                (flatten-follow pages limit (some next) found h p bound ∙ starts)
            ∙ append-take-drop limit rest
        | inr fits ↦
            let l : length (after id cursor found) ≤ limit = ground arith in
            ap flatten (follow_last pages limit cursor found l) ∙ append-nil (after id cursor found)
      ]
