-- ===== src/Cache/Qlru/Reads.antt =====
-- What a read of `ZanixQLRUConnector` returns after each method.
use datamaster.Prelude.{
  ℕ, ◌+◌, ◌*◌, ◌-◌, ◌≤◌, ◌≡◌, ◌≢◌, ◌⊎◌, ◌∙◌, sym, ap, true, false, Option, none, some, List, [],
  ◌∷◌, ◌++◌, arith, ltb, length, Option-cases, inl, inr, drop, if◌then◌else◌, ◌&&◌, length-append,
}
use mathlib.Core.Option
use datamaster.JsMap
use datamaster.JsMap.{IsMap, Each, IsFresh}
use datamaster.JsMap.Laws.{
  delete-IsMap, set_fresh, get-delete_ne, length-delete-le, length-delete, delete-IsFresh_self,
  get-IsFresh, delete_absent,
}
use datamaster.Cache.Qlru.{
  Qlru, Entry, SetOptions, keep_ttl, seconds, get, set, set_now, entry_for, new_entry, shrink,
  is_expired,
}
use datamaster.Cache.Qlru.Invariant.{IsValid, reorder-delete}
use datamaster.Cache.Qlru.Lookups.{
  get_of_entry, shrink-drop, get-shrink_self, get-shrink_ne, get-shrink_first, get-first_key,
}

module _ {K V : Type 0} (dec : Discrete K) where
  module _ (ttl_with_offset : ℕ → Option ℕ → Option ℕ → ℕ) (now : ℕ) (k : K) (v : V)
      (options : SetOptions) (c : Qlru K V) (h : IsValid c) where
    abbrev rest : List (K × Entry V)
    rest = JsMap.delete dec k c.cache

    abbrev stored : Entry V
    stored = new_entry dec ttl_with_offset now k v options c

    rest-IsFresh : IsFresh k rest
    rest-IsFresh = delete-IsFresh_self dec k c.cache h.distinct

    -- A write keeps the `capacity` most recent entries of the order of use
    pub set_now-recent :
        set_now dec ttl_with_offset now k v options c
        ≡ record c { cache = drop (length rest + 1 - c.capacity) (rest ++ (k, stored) ∷ []) }
    unfolding set_now
    set_now-recent = rw (
      reorder-delete dec k c.cache,
      set_fresh dec k stored rest rest-IsFresh,
      shrink-drop dec c.capacity (rest ++ (k, stored) ∷ []) (
          omega (
            arith,
            length-append rest ((k, stored) ∷ []),
            length-delete-le dec k c.cache,
            h.bounded,
          )),
      length-append rest ((k, stored) ∷ []),
    )

    rest_cases :
        ((rest ≡ c.cache) × (JsMap.get dec k c.cache ≡ none)) ⊎ (length rest + 1 ≡ length c.cache)
    rest_cases = elim (Option-cases (JsMap.get dec k c.cache)) [
      | inl missing ↦ inl (delete_absent dec k c.cache (get-IsFresh dec k c.cache missing), missing)
      | inr (e, found) ↦ inr (length-delete dec k c.cache e found)
    ]

    -- The write needs the place of the key: it is of a new key, and the cache is full.
    abbrev Evicts : K → Type 0
    Evicts q =
        (JsMap.get dec k c.cache ≡ none)
        × (length c.cache ≡ c.capacity)
        × (JsMap.first_key c.cache ≡ some q)

    -- Where a key other than the written one stands afterwards.
    abbrev Kept : K → Type 0
    Kept q =
        ((JsMap.get dec q (shrink dec c.capacity (rest ++ (k, stored) ∷ []))
            ≡ JsMap.get dec q c.cache)
          × (¬ Evicts q))
        ⊎ (Evicts q × (JsMap.get dec q (shrink dec c.capacity (rest ++ (k, stored) ∷ [])) ≡ none))

    evicted :
        (q : K)
        → q ≢ k
        → Evicts q
        → JsMap.get dec q (shrink dec c.capacity (rest ++ (k, stored) ∷ [])) ≡ none
    evicted q ne (missing, full, first) =
        let whole : rest ≡ c.cache =
          delete_absent dec k c.cache (get-IsFresh dec k c.cache missing) in
        get-shrink_first dec c.capacity k q stored rest (ap length whole ∙ full)
          (ap JsMap.first_key whole ∙ first) rest-IsFresh (delete-IsMap dec k c.cache h.distinct) ne

    set-get_other : (q : K) → q ≢ k → Kept q
    set-get_other q ne =
        elim (get-shrink_ne dec c.capacity k q stored rest h.positive
          (omega (arith, length-delete-le dec k c.cache, h.bounded)) rest-IsFresh
          (delete-IsMap dec k c.cache h.distinct) ne) [
            | inl same ↦
                let stays = same ∙ get-delete_ne dec k q c.cache ne in
                inl (
                  stays,
                  λ (evicts : Evicts q).
                      get-first_key dec q c.cache evicts.2 (sym stays ∙ evicted q ne evicts),
                )
            | inr (full, first, gone) ↦ elim rest_cases [
              | inl (whole, missing) ↦ inr ((missing, rw whole at full, rw whole at first), gone)
              | inr fewer ↦ absurd (omega (arith, h.bounded))
            ]
          ]

  module _ (ttl_with_offset : ℕ → Option ℕ → Option ℕ → ℕ) where
    set-set_now :
        (now : ℕ) (k : K) (v : V) (options : SetOptions) (c : Qlru K V)
        → options.schedule ≡ false
        → set dec ttl_with_offset now k v options c ≡ set_now dec ttl_with_offset now k v options c
    unfolding set
    set-set_now now k v options c at_once = simp at_once

    -- After an immediate write the key has the new entry. Another key has no entry if it was the
    -- first one, which is the least recently used, of a full cache that did not have the written key;
    -- and else the entry that it had.
    pub set-entries :
        (now : ℕ) (k q : K) (v : V) (options : SetOptions) (c : Qlru K V)
        → IsValid c
        → options.schedule ≡ false
        → q ≢ k
        → (JsMap.get dec k (set dec ttl_with_offset now k v options c).cache
            ≡ some (new_entry dec ttl_with_offset now k v options c))
          × (((JsMap.get dec q (set dec ttl_with_offset now k v options c).cache
                  ≡ JsMap.get dec q c.cache)
                × (¬ (
                    (JsMap.get dec k c.cache ≡ none)
                    × (length c.cache ≡ c.capacity)
                    × (JsMap.first_key c.cache ≡ some q))))
              ⊎ (((JsMap.get dec k c.cache ≡ none)
                    × (length c.cache ≡ c.capacity)
                    × (JsMap.first_key c.cache ≡ some q))
                  × (JsMap.get dec q (set dec ttl_with_offset now k v options c).cache ≡ none)))
    unfolding set_now
    set-entries now k q v options c h at_once ne =
        let rest = JsMap.delete dec k c.cache in
        let fresh = delete-IsFresh_self dec k c.cache h.distinct in
        let entry = new_entry dec ttl_with_offset now k v options c in
        rw
          (
            set-set_now now k v options c at_once,
            reorder-delete dec k c.cache,
            set_fresh dec k entry rest fresh,
          )
          (
            get-shrink_self dec c.capacity k entry rest h.positive fresh,
            set-get_other ttl_with_offset now k v options c h q ne,
          )

    -- An immediate write leaves, in the order of use, the `capacity` most recent of the other
    -- entries followed by the new one.
    pub set-recent :
        (now : ℕ) (k : K) (v : V) (options : SetOptions) (c : Qlru K V)
        → IsValid c
        → options.schedule ≡ false
        → set dec ttl_with_offset now k v options c ≡ record c {
          cache = drop (length (JsMap.delete dec k c.cache) + 1 - c.capacity) (
              JsMap.delete dec k c.cache
              ++ (k, new_entry dec ttl_with_offset now k v options c) ∷ []);
        }
    set-recent now k v options c h at_once =
        set-set_now now k v options c at_once ∙ set_now-recent ttl_with_offset now k v options c h

    set-stored :
        (now : ℕ) (k : K) (v : V) (options : SetOptions) (c : Qlru K V)
        → IsValid c
        → options.schedule ≡ false
        → JsMap.get dec k (set dec ttl_with_offset now k v options c).cache
          ≡ some (new_entry dec ttl_with_offset now k v options c)
    unfolding set_now
    set-stored now k v options c h at_once =
        let rest = JsMap.delete dec k c.cache in
        let fresh = delete-IsFresh_self dec k c.cache h.distinct in
        let entry = new_entry dec ttl_with_offset now k v options c in
        rw
          (
            set-set_now now k v options c at_once,
            reorder-delete dec k c.cache,
            set_fresh dec k entry rest fresh,
          )
          (get-shrink_self dec c.capacity k entry rest h.positive fresh)

    -- A read after an immediate write with a TTL of `s` seconds (its offset added) returns the
    -- value until that time is over; with a TTL of 0 it always does.
    pub get-set_seconds :
        (now later s : ℕ) (k : K) (v : V) (options : SetOptions) (c : Qlru K V)
        → IsValid c
        → options.schedule ≡ false
        → Option.get_or options.exp (seconds c.ttl) ≡ seconds s
        → (get dec later k (set dec ttl_with_offset now k v options c)).1 ≡ (
            let ttl = ttl_with_offset s options.max_ttl_offset options.min_ttl_for_offset in
            if ltb 0 ttl && ltb (now + ttl * 1000) later then none else some v)
    unfolding new_entry entry_for
    get-set_seconds now later s k v options c h at_once ttl =
        get_of_entry dec later k _ _ (set-stored now k v options c h at_once)
        ∙ rw (ttl, new_entry) (ground arith)

    -- A write with 'KEEPTTL' of a key that is in the map, expired or not, takes over the old times,
    -- so that a read returns the value until the old entry's time is over.
    pub get-set_keep_ttl :
        (now later : ℕ) (k : K) (v : V) (options : SetOptions) (c : Qlru K V) (e : Entry V)
        → IsValid c
        → options.schedule ≡ false
        → options.exp ≡ some keep_ttl
        → JsMap.get dec k c.cache ≡ some e
        → (get dec later k (set dec ttl_with_offset now k v options c)).1
          ≡ (if is_expired later e then none else some v)
    unfolding new_entry entry_for
    get-set_keep_ttl now later k v options c e h at_once keep found =
        get_of_entry dec later k _ _ (set-stored now k v options c h at_once)
        ∙ rw (keep, found, new_entry)

    -- So a write with 'KEEPTTL' over an entry that has expired, but was not deleted yet, is lost:
    -- no read ever returns the value.
    pub get-set_keep_ttl_expired :
        (now later : ℕ) (k : K) (v : V) (options : SetOptions) (c : Qlru K V) (e : Entry V)
        → IsValid c
        → options.schedule ≡ false
        → options.exp ≡ some keep_ttl
        → JsMap.get dec k c.cache ≡ some e
        → is_expired now e ≡ true
        → now ≤ later
        → (get dec later k (set dec ttl_with_offset now k v options c)).1 ≡ none
    get-set_keep_ttl_expired now later k v options c e h at_once keep found dead after =
        let still : is_expired later e ≡ true = ground arith in
        get-set_keep_ttl now later k v options c e h at_once keep found ∙ rw still
