-- ===== src/Cache/Qlru/Eviction.antt =====
-- modules/cache/providers/qlru/connector.ts: `evict`, and the listings that run it first.
use datamaster.Prelude.{
  ℕ, ◌≤◌, ◌≡◌, ◌≢◌, refl, sym, ap, ◌∙◌, true, false, none, some, List, [], ◌∷◌, ◌++◌, arith, length,
  Bool-cases, inl, inr, if_pos, if_neg, if◌then◌else◌, append_assoc, map,
}
use datamaster.JsMap
use datamaster.JsMap.{IsMap, Each, IsFresh}
use datamaster.JsMap.Laws.{delete-IsMap, get_of_IsFresh}
use datamaster.Cache.Qlru.{
  Qlru, Entry, get, evict, evict_from, size, keys, values, is_expired, is_stale,
}
use datamaster.Cache.Qlru.Invariant.{IsValid, IsCoherent}

-- The entries whose time is not over, in their order.
pub live : {K V : Type 0} → ℕ → List (K × Entry V) → List (K × Entry V)
live now [] = []
live now ((k, e) ∷ m) = let rest = live now m in if is_expired now e then rest else (k, e) ∷ rest

live-IsFresh :
    {K V : Type 0} (now : ℕ) (q : K) (m : List (K × Entry V)) → IsFresh q m → IsFresh q (live now m)
unfolding live
live-IsFresh now q [] h = tt
live-IsFresh now q ((k, e) ∷ m) h = ground (arith, live-IsFresh now q m)

module _ {K V : Type 0} (dec : Discrete K) where
  IsFresh-append_head :
      (j k : K) (e : Entry V) (p m : List (K × Entry V)) → IsFresh j (p ++ (k, e) ∷ m) → k ≢ j
  IsFresh-append_head j k e [] m h = h.0
  IsFresh-append_head j k e (_ ∷ p) m h = IsFresh-append_head j k e p m h.1

  delete_middle :
      (k : K) (e : Entry V) (p m : List (K × Entry V))
      → IsMap (p ++ (k, e) ∷ m)
      → JsMap.delete dec k (p ++ (k, e) ∷ m) ≡ p ++ m
  unfolding JsMap.delete
  delete_middle k e [] m h = if_pos (dec k k) refl _ _
  delete_middle k e ((j, w) ∷ p) m h =
      if_neg (dec j k) (λ q. IsFresh-append_head j k e p m h.0 (sym q)) _ _
      ∙ ap (◌∷◌ (j, w)) (delete_middle k e p m h.1)

  evict_from-live :
      (now : ℕ) (m p : List (K × Entry V))
      → Each IsCoherent m
      → IsMap (p ++ m)
      → evict_from dec now m (p ++ m) ≡ p ++ live now m
  unfolding evict_from live
  evict_from-live now [] p coherent h = refl
  evict_from-live now ((k, e) ∷ m) p coherent h = elim (Bool-cases (is_expired now e)) [
    | inl dead ↦
        let stale : is_stale now e ≡ true = ground arith in
        let gone = delete_middle k e p m h in
        rw (stale, dead, gone)
          (evict_from-live now m p coherent.1 (rw gone at (delete-IsMap dec k (p ++ (k, e) ∷ m) h)))
    | inr alive ↦
        let fresh : is_stale now e ≡ false = ground arith in
        rw
          (
            fresh,
            alive,
            ← append_assoc p ((k, e) ∷ []) m,
            ← append_assoc p ((k, e) ∷ []) (live now m),
          )
          (evict_from-live now m (p ++ (k, e) ∷ []) coherent.1
            (rw (append_assoc p ((k, e) ∷ []) m) h))
  ]

  evict-live :
      (now : ℕ) (c : Qlru K V) → IsValid c → evict dec now c ≡ record c { cache = live now c.cache }
  unfolding evict
  evict-live now c h = rw (evict_from-live now c.cache [] h.coherent h.distinct)

  -- `size`, `keys` and `values` report the entries whose time is not over, in their order, and
  -- drop the others.
  listing-live :
      (now : ℕ) (c : Qlru K V)
      → IsValid c
      → (size dec now c ≡ (record c { cache = live now c.cache }, length (live now c.cache)))
        × (keys dec now c ≡ (record c { cache = live now c.cache }, JsMap.keys (live now c.cache)))
        × (values dec now c ≡ (
          record c { cache = live now c.cache },
          map (λ (e : Entry V). e.value) (JsMap.values (live now c.cache)),
        ))
  unfolding size keys values
  listing-live now c h = let e = evict-live now c h in (rw e, rw e, rw e)

  get-live :
      (now : ℕ) (k : K) (m : List (K × Entry V))
      → IsMap m
      → JsMap.get dec k (live now m) ≡ elim (JsMap.get dec k m) [
        | none ↦ none
        | some e ↦ if is_expired now e then none else some e
      ]
  unfolding live JsMap.get
  get-live now k [] h = refl
  get-live now k ((j, e) ∷ m) h = elim (dec j k) [
    | yes p ↦ ground (arith, get_of_IsFresh dec k (live now m), live-IsFresh now k m)
    | no p ↦ ground (arith, get-live now k m)
  ]

  -- What `evict` removes could not be read any more: later reads answer as without it.
  pub get-evict :
      (now later : ℕ) (k : K) (c : Qlru K V)
      → IsValid c
      → now ≤ later
      → (get dec later k (evict dec now c)).1 ≡ (get dec later k c).1
  unfolding get
  get-evict now later k c h after = rw (evict-live now c h) (ground (arith, get-live now k c.cache))
