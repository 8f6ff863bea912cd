-- ===== src/Cache/Qlru/Invariant.antt =====
-- The well-formedness of `ZanixQLRUConnector`'s state, and that every method keeps it.
use datamaster.Prelude.{
  ℕ, ◌+◌, ◌≤◌, ◌<◌, ◌≡◌, refl, sym, false, Option, none, some, List, [], ◌∷◌, arith, ltb, length,
  Option-cases, Bool-cases, inl, inr, if_cases,
}
use mathlib.Core.Option
use datamaster.JsMap
use datamaster.JsMap.{IsMap, Each}
use datamaster.JsMap.Laws.{
  delete-IsMap, set-IsMap, delete_head, Each-get, Each-delete, Each-set, length-delete-le,
  length-delete, length-set_fresh, delete-IsFresh_self, get-IsFresh, delete_absent,
}
use datamaster.Cache.Qlru.{
  Qlru, Entry, SetOptions, Expiry, keep_ttl, seconds, ok, create, get, has, delete, clear, evict,
  evict_from, set, set_now, entry_for, new_entry, reorder, shrink, fire_first, fire_timer,
  is_expired, is_stale,
}
use datamaster.Cache.Qlru.Calls.{Call, step, run}

-- An entry has a TTL exactly if it has an expiration time.
abbrev pub IsCoherent : {V : Type 0} → Entry V → Type 0
IsCoherent e = (0 < e.ttl → 0 < e.expiration_time) × (0 < e.expiration_time → 0 < e.ttl)

pub record IsValid {K V : Type 0} (c : Qlru K V) : Type 0 where
  pub positive : 0 < c.capacity
  pub bounded : length c.cache ≤ c.capacity
  pub distinct : IsMap c.cache
  pub coherent : Each IsCoherent c.cache

pub create-IsValid :
    {K V : Type 0} (env capacity : Option ℕ) (ttl : ℕ) {c : Qlru K V}
    → create env capacity ttl ≡ ok c
    → IsValid c
unfolding create
create-IsValid env capacity ttl e = ground arith

pub clear-IsValid : {K V : Type 0} (c : Qlru K V) → IsValid c → IsValid (clear c)
unfolding clear
clear-IsValid c h = record {
  positive = h.positive;
  bounded = omega arith;
  distinct = tt;
  coherent = tt;
}

module _ {K V : Type 0} (dec : Discrete K) where
  delete_part-IsValid :
      (c : Qlru K V) (k : K) → IsValid c → IsValid (record c { cache = JsMap.delete dec k c.cache })
  delete_part-IsValid c k h = record {
    positive = h.positive;
    bounded = omega (arith, length-delete-le dec k c.cache);
    distinct = delete-IsMap dec k c.cache h.distinct;
    coherent = Each-delete dec IsCoherent k c.cache h.coherent;
  }

  -- A present key's entry moves to the end.
  touch-IsValid :
      (c : Qlru K V) (k : K) (e : Entry V)
      → JsMap.get dec k c.cache ≡ some e
      → IsValid c
      → IsValid (record c { cache = JsMap.set dec k e (JsMap.delete dec k c.cache) })
  touch-IsValid c k e found h = record {
    positive = h.positive;
    bounded = omega (
      arith,
      length-delete dec k c.cache e found,
      length-set_fresh dec k e (JsMap.delete dec k c.cache)
          (delete-IsFresh_self dec k c.cache h.distinct),
    );
    distinct =
        set-IsMap dec k e (JsMap.delete dec k c.cache) (delete-IsMap dec k c.cache h.distinct);
    coherent =
        Each-set dec IsCoherent k e (JsMap.delete dec k c.cache)
          (Each-get dec IsCoherent k e c.cache h.coherent found)
          (Each-delete dec IsCoherent k c.cache h.coherent);
  }

  pub get-IsValid : (now : ℕ) (k : K) (c : Qlru K V) → IsValid c → IsValid (get dec now k c).0
  unfolding get
  get-IsValid now k c h = elim (Option-cases (JsMap.get dec k c.cache)) [
    | inl missing ↦ rw (missing, get) h
    | inr (e, found) ↦ elim (Bool-cases (is_expired now e)) [
      | inl dead ↦ rw (found, dead, get) (delete_part-IsValid c k h)
      | inr live ↦ rw (found, live, get) (touch-IsValid c k e found h)
    ]
  ]

  pub has-IsValid : (now : ℕ) (k : K) (c : Qlru K V) → IsValid c → IsValid (has dec now k c).0
  unfolding has
  has-IsValid now k c h = elim (Option-cases (JsMap.get dec k c.cache)) [
    | inl missing ↦ rw (missing, has) h
    | inr (e, found) ↦ elim (Bool-cases (is_expired now e)) [
      | inl dead ↦ rw (found, dead, has) (delete_part-IsValid c k h)
      | inr live ↦ rw (found, live, has) h
    ]
  ]

  pub delete-IsValid : (k : K) (c : Qlru K V) → IsValid c → IsValid (delete dec k c).0
  unfolding delete
  delete-IsValid k c h = delete_part-IsValid c k h

  -- The loop of `evict` only ever deletes.
  evict_from-IsValid :
      (now : ℕ) (rest : List (K × Entry V)) (c : Qlru K V)
      → IsValid c
      → IsValid (record c { cache = evict_from dec now rest c.cache })
  unfolding evict_from
  evict_from-IsValid now [] c h = h
  evict_from-IsValid now ((k, e) ∷ rest) c h = elim (Bool-cases (is_stale now e)) [
    | inl stale ↦ rw stale (
        evict_from-IsValid now rest (record c { cache = JsMap.delete dec k c.cache })
          (delete_part-IsValid c k h))
    | inr fresh ↦ rw fresh (evict_from-IsValid now rest c h)
  ]

  pub evict-IsValid : (now : ℕ) (c : Qlru K V) → IsValid c → IsValid (evict dec now c)
  unfolding evict
  evict-IsValid now c h = evict_from-IsValid now c.cache c h

  pub reorder-delete : (k : K) (m : List (K × Entry V)) → reorder dec k m ≡ JsMap.delete dec k m
  unfolding reorder
  reorder-delete k m = elim (Option-cases (JsMap.get dec k m)) [
    | inl missing ↦
        rw (missing, reorder) (sym (delete_absent dec k m (get-IsFresh dec k m missing)))
    | inr (e, found) ↦ rw (found, reorder)
  ]

  -- A map with one entry more than the capacity at most is valid after the eviction.
  shrink-IsValid :
      (c : Qlru K V) (m : List (K × Entry V))
      → 0 < c.capacity
      → length m ≤ c.capacity + 1
      → IsMap m
      → Each IsCoherent m
      → IsValid (record c { cache = shrink dec c.capacity m })
  unfolding shrink
  shrink-IsValid c [] pos few distinct coherent =
      let fits : ltb c.capacity 0 ≡ false = ground arith in
      rw fits (record { positive = pos; bounded = omega arith; distinct = tt; coherent = tt })
  shrink-IsValid c ((k, e) ∷ m) pos few distinct coherent =
      elim (Bool-cases (ltb c.capacity (length ((k, e) ∷ m)))) [
        | inl over ↦
            rw (over, delete_head dec k e m)
              (record {
                positive = pos;
                bounded = ground arith;
                distinct = distinct.1;
                coherent = coherent.1;
              })
        | inr fits ↦ rw fits (record {
          positive = pos;
          bounded = ground arith;
          distinct = distinct;
          coherent = coherent;
        })
      ]

  module _ (ttl_with_offset : ℕ → Option ℕ → Option ℕ → ℕ) where
    entry_for-IsCoherent :
        (now : ℕ) (v : V) (options : SetOptions) (ttl : ℕ) (exp : Expiry) (old : Option (Entry V))
        → ((e : Entry V) → old ≡ some e → IsCoherent e)
        → IsCoherent (entry_for dec ttl_with_offset now v options ttl exp old)
    unfolding entry_for
    entry_for-IsCoherent now v options ttl keep_ttl none h = ground arith
    entry_for-IsCoherent now v options ttl keep_ttl (some e) h = h e refl
    entry_for-IsCoherent now v options ttl (seconds s) old h = ground arith

    new_entry-IsCoherent :
        (now : ℕ) (k : K) (v : V) (options : SetOptions) (c : Qlru K V)
        → IsValid c
        → IsCoherent (new_entry dec ttl_with_offset now k v options c)
    unfolding new_entry
    new_entry-IsCoherent now k v options c h =
        entry_for-IsCoherent now v options c.ttl (Option.get_or options.exp (seconds c.ttl))
          (JsMap.get dec k c.cache)
          (λ e found. Each-get dec IsCoherent k e c.cache h.coherent found)

    set_now-IsValid :
        (now : ℕ) (k : K) (v : V) (options : SetOptions) (c : Qlru K V)
        → IsValid c
        → IsValid (set_now dec ttl_with_offset now k v options c)
    unfolding set_now
    set_now-IsValid now k v options c h =
        let rest = JsMap.delete dec k c.cache in
        let entry = new_entry dec ttl_with_offset now k v options c in
        let fresh = delete-IsFresh_self dec k c.cache h.distinct in
        rw (reorder-delete k c.cache) (
          shrink-IsValid c (JsMap.set dec k entry rest) h.positive
            (omega (
              arith,
              length-delete-le dec k c.cache,
              h.bounded,
              length-set_fresh dec k entry rest fresh,
            ))
            (set-IsMap dec k entry rest (delete-IsMap dec k c.cache h.distinct))
            (Each-set dec IsCoherent k entry rest (new_entry-IsCoherent now k v options c h)
              (Each-delete dec IsCoherent k c.cache h.coherent)))

    pub set-IsValid :
        (now : ℕ) (k : K) (v : V) (options : SetOptions) (c : Qlru K V)
        → IsValid c
        → IsValid (set dec ttl_with_offset now k v options c)
    unfolding set
    set-IsValid now k v options c h =
        if_cases IsValid options.schedule (λ later. assumption)
          (λ at_once. set_now-IsValid now k v options c h)

    fire_first-IsValid :
        (now : ℕ) (timers : List (K × V × SetOptions)) (c : Qlru K V)
        → IsValid c
        → IsValid (fire_first dec ttl_with_offset now timers c)
    unfolding fire_first
    fire_first-IsValid now [] c h = h
    fire_first-IsValid now ((k, v, options) ∷ rest) c h =
        set-IsValid now k v options (record c { timers = rest }) assumption

    pub step-IsValid :
        (now : ℕ) (call : Call K V) (c : Qlru K V)
        → IsValid c
        → IsValid (step dec ttl_with_offset now call c)
    unfolding step fire_timer
    step-IsValid now (Call.get k) c h = get-IsValid now k c h
    step-IsValid now (Call.has k) c h = has-IsValid now k c h
    step-IsValid now (Call.delete k) c h = delete-IsValid k c h
    step-IsValid now Call.clear c h = clear-IsValid c h
    step-IsValid now Call.list c h = evict-IsValid now c h
    step-IsValid now (Call.set k v options) c h = set-IsValid now k v options c h
    step-IsValid now Call.timer c h = fire_first-IsValid now c.timers c h

    pub run-IsValid :
        (calls : List (ℕ × Call K V)) (c : Qlru K V)
        → IsValid c
        → IsValid (run dec ttl_with_offset calls c)
    unfolding run
    run-IsValid [] c h = h
    run-IsValid ((now, call) ∷ calls) c h =
        run-IsValid calls (step dec ttl_with_offset now call c) (step-IsValid now call c h)

    -- From the constructor on, whatever calls are made and whenever the timers fire, the cache
    -- never holds more entries than its capacity, never one key twice, and every entry with a TTL
    -- has an expiration time and the other way round.
    pub create-run-IsValid :
        (env capacity : Option ℕ) (ttl : ℕ) (c : Qlru K V) (calls : List (ℕ × Call K V))
        → create env capacity ttl ≡ ok c
        → IsValid (run dec ttl_with_offset calls c)
    create-run-IsValid env capacity ttl c calls e =
        run-IsValid calls c (create-IsValid env capacity ttl e)
