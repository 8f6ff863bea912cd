-- ===== src/Cache/Qlru/Lookups.antt =====
-- Reads of `ZanixQLRUConnector` after a removal or a change of the order.
use datamaster.Prelude.{
  ℕ, ◌+◌, ◌-◌, ◌≤◌, ◌<◌, ◌≡◌, ◌≢◌, ◌⊎◌, refl, sym, ap, ◌∙◌, dec_le, true, false, Option, none, some,
  List, [], ◌∷◌, ◌++◌, arith, ltb, length, Option-cases, Bool-cases, inl, inr, drop, ite, if_pos,
  if_neg, is_some, if◌then◌else◌, length-append,
}
use datamaster.JsMap
use datamaster.JsMap.{IsMap, Each, IsFresh}
use datamaster.JsMap.Laws.{
  delete_head, get-set as JsMap-get-set, set_fresh, get_of_IsFresh, delete-IsFresh_self,
  get-IsFresh, delete_absent,
}
use datamaster.Cache.Qlru.{Qlru, Entry, get, has, shrink, is_expired}
use datamaster.Cache.Qlru.Invariant.{IsValid}

module _ {K V : Type 0} (dec : Discrete K) where
  -- What the cache holds for a key at a time.
  abbrev pub visible : ℕ → K → Qlru K V → Option V
  visible now k c = elim (JsMap.get dec k c.cache) [
    | none ↦ none
    | some e ↦ if is_expired now e then none else some e.value
  ]

  get-visible : (now : ℕ) (k : K) (c : Qlru K V) → (get dec now k c).1 ≡ visible now k c
  unfolding get
  get-visible now k c = ground arith

  pub get_of_entry :
      (now : ℕ) (k : K) (c : Qlru K V) (e : Entry V)
      → JsMap.get dec k c.cache ≡ some e
      → (get dec now k c).1 ≡ (if is_expired now e then none else some e.value)
  unfolding get
  get_of_entry now k c e found = ground arith

  -- `has` tells whether `get`, called at the same time on the same state, returns a value.
  pub has-get : (now : ℕ) (k : K) (c : Qlru K V) → (has dec now k c).1 ≡ is_some (get dec now k c).1
  unfolding has get
  has-get now k c = ground arith

  pub shrink-drop :
      (cap : ℕ) (m : List (K × Entry V))
      → length m ≤ cap + 1
      → shrink dec cap m ≡ drop (length m - cap) m
  unfolding shrink
  shrink-drop cap [] h =
      let fits : ltb cap 0 ≡ false = ground arith in
      let none_over : 0 - cap ≡ 0 = omega arith in rw (fits, none_over)
  shrink-drop cap ((k, e) ∷ m) h = elim (Bool-cases (ltb cap (length ((k, e) ∷ m)))) [
    | inl over ↦
        let one : length ((k, e) ∷ m) - cap ≡ 1 = ground arith in
        rw (over, one, delete_head dec k e m)
    | inr fits ↦
        let zero_over : length ((k, e) ∷ m) - cap ≡ 0 = ground arith in rw (fits, zero_over)
  ]

  -- `get` on a live key: the value, and the entry is the most recent; the others keep their order.
  pub get-recent :
      (now : ℕ) (k : K) (c : Qlru K V) (e : Entry V)
      → IsValid c
      → JsMap.get dec k c.cache ≡ some e
      → is_expired now e ≡ false
      → get dec now k c
        ≡ (record c { cache = JsMap.delete dec k c.cache ++ (k, e) ∷ [] }, some e.value)
  unfolding get
  get-recent now k c e h found live = rw (
    found,
    live,
    get,
    set_fresh dec k e (JsMap.delete dec k c.cache) (delete-IsFresh_self dec k c.cache h.distinct),
  )

  -- `get` on a key that is absent or expired: nothing, and the key is gone.
  pub get-gone :
      (now : ℕ) (k : K) (c : Qlru K V)
      → visible now k c ≡ none
      → get dec now k c ≡ (record c { cache = JsMap.delete dec k c.cache }, none)
  unfolding get
  get-gone now k c gone = elim (Option-cases (JsMap.get dec k c.cache)) [
    | inl missing ↦
        rw (missing, get, delete_absent dec k c.cache (get-IsFresh dec k c.cache missing))
    | inr (e, found) ↦ rw (found, get) (ground arith)
  ]

  get_cons_ne :
      (j : K) (w : Entry V) (q : K) (m : List (K × Entry V))
      → j ≢ q
      → JsMap.get dec q ((j, w) ∷ m) ≡ JsMap.get dec q m
  unfolding JsMap.get
  get_cons_ne j w q m p = if_neg (dec j q) p _ _

  get-append :
      (k q : K) (e : Entry V) (m : List (K × Entry V))
      → IsFresh k m
      → JsMap.get dec q (m ++ (k, e) ∷ []) ≡ ite (dec k q) (some e) (JsMap.get dec q m)
  get-append k q e m fresh = rw (← set_fresh dec k e m fresh) (JsMap-get-set dec k q e m)

  shrink_over :
      (cap : ℕ) (j : K) (w : Entry V) (m : List (K × Entry V))
      → cap ≤ length m
      → shrink dec cap ((j, w) ∷ m) ≡ m
  unfolding shrink
  shrink_over cap j w m h =
      let over : ltb cap (length ((j, w) ∷ m)) ≡ true = ground arith in
      rw (over, delete_head dec j w m)

  shrink_fits : (cap : ℕ) (m : List (K × Entry V)) → length m ≤ cap → shrink dec cap m ≡ m
  unfolding shrink
  shrink_fits cap m h = let fits : ltb cap (length m) ≡ false = ground arith in rw fits

  -- The written key survives the eviction.
  pub get-shrink_self :
      (cap : ℕ) (k : K) (e : Entry V) (m : List (K × Entry V))
      → 0 < cap
      → IsFresh k m
      → JsMap.get dec k (shrink dec cap (m ++ (k, e) ∷ [])) ≡ some e
  get-shrink_self cap k e [] pos fresh =
      rw (shrink_fits cap ((k, e) ∷ []) pos, get-append k k e [] fresh) (if_pos (dec k k) refl _ _)
  get-shrink_self cap k e ((j, w) ∷ m) pos fresh = elim (dec_le (length ((j, w) ∷ m) + 1) cap) [
    | yes fits ↦
        rw
          (
            shrink_fits cap ((j, w) ∷ m ++ (k, e) ∷ [])
                (omega (arith, length-append m ((k, e) ∷ []))),
            get-append k k e ((j, w) ∷ m) fresh,
          )
          (if_pos (dec k k) refl _ _)
    | no over ↦
        rw
          (
            shrink_over cap j w (m ++ (k, e) ∷ []) (omega (arith, length-append m ((k, e) ∷ []))),
            get-append k k e m fresh.1,
          )
          (if_pos (dec k k) refl _ _)
  ]

  -- Another key survives it too, unless the map was full and the key its first.
  pub get-shrink_ne :
      (cap : ℕ) (k q : K) (e : Entry V) (m : List (K × Entry V))
      → 0 < cap
      → length m ≤ cap
      → IsFresh k m
      → IsMap m
      → q ≢ k
      → (JsMap.get dec q (shrink dec cap (m ++ (k, e) ∷ [])) ≡ JsMap.get dec q m)
        ⊎ ((length m ≡ cap)
            × (JsMap.first_key m ≡ some q)
            × (JsMap.get dec q (shrink dec cap (m ++ (k, e) ∷ [])) ≡ none))
  get-shrink_ne cap k q e [] pos few fresh map ne = inl (
      rw (shrink_fits cap ((k, e) ∷ []) pos, get-append k q e [] fresh)
        (if_neg (dec k q) (λ p. ne (sym p)) _ _))
  get-shrink_ne cap k q e ((j, w) ∷ m) pos few fresh map ne =
      elim (dec_le (length ((j, w) ∷ m) + 1) cap) [
        | yes fits ↦ inl (
            rw
              (
                shrink_fits cap ((j, w) ∷ m ++ (k, e) ∷ [])
                    (omega (arith, length-append m ((k, e) ∷ []))),
                get-append k q e ((j, w) ∷ m) fresh,
              )
              (if_neg (dec k q) (λ p. ne (sym p)) _ _))
        | no over ↦
            let last =
              shrink_over cap j w (m ++ (k, e) ∷ [])
                (omega (arith, length-append m ((k, e) ∷ []))) in
            let read = get-append k q e m fresh.1 ∙ if_neg (dec k q) (λ p. ne (sym p)) _ _ in
            elim (dec j q) [
              | yes p ↦
                  inr (omega arith, ap some p, rw (last, read, ← p) (get_of_IsFresh dec j m map.0))
              | no p ↦ inl (rw (last, read) (sym (get_cons_ne j w q m p)))
            ]
      ]

  -- Of a map that was full, the first key is evicted.
  pub get-shrink_first :
      (cap : ℕ) (k q : K) (e : Entry V) (m : List (K × Entry V))
      → length m ≡ cap
      → JsMap.first_key m ≡ some q
      → IsFresh k m
      → IsMap m
      → q ≢ k
      → JsMap.get dec q (shrink dec cap (m ++ (k, e) ∷ [])) ≡ none
  get-shrink_first cap k q e [] full first fresh map ne = cc
  get-shrink_first cap k q e ((j, w) ∷ m) full first fresh map ne =
      let is_q : j ≡ q = cc in
      let last =
        shrink_over cap j w (m ++ (k, e) ∷ []) (omega (arith, length-append m ((k, e) ∷ []))) in
      let read = get-append k q e m fresh.1 ∙ if_neg (dec k q) (λ p. ne (sym p)) _ _ in
      rw (last, read, ← is_q) (get_of_IsFresh dec j m map.0)

  -- A first key has an entry.
  pub get-first_key :
      (q : K) (m : List (K × Entry V)) → JsMap.first_key m ≡ some q → JsMap.get dec q m ≢ none
  unfolding JsMap.get
  get-first_key q [] first absent = cc
  get-first_key q ((j, w) ∷ m) first absent =
      let is_q : j ≡ q = cc in
      let there = sym (if_pos (dec j q) is_q (some w) (JsMap.get dec q m)) ∙ absent in cc
