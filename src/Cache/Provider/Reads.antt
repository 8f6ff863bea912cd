-- ===== src/Cache/Provider/Reads.antt =====
-- `getCachedOrFetch`: what it returns is served from the local cache afterwards.
use mathlib.Core.Option
use datamaster.Prelude.{
  ℕ, ◌+◌, ◌*◌, ◌≤◌, ◌≡◌, ◌⊎◌, inl, inr, refl, sym, ap, ◌∙◌, false, ◌&&◌, Option, none, some, ltb,
  arith,
}
use datamaster.Cache.Qlru.{SetOptions, seconds}
use datamaster.Cache.Qlru.Invariant.{IsValid, get-IsValid, set-IsValid}
use datamaster.Cache.Qlru.Reads.{get-set_seconds}
use datamaster.Cache.Provider.{
  Outcome, returned, thrown, Remote, Times, World, Waits, flat, local_get, local_set,
  save_to_caches, fetch_and_save, replied, looked_up, get_cached_or_fetch,
}

-- What others do leaves the local cache valid, and alone while the last write is awaited.
pub record IsQuiet {K V : Type 0} {remote : Remote K V} (waits : Waits remote) : Type 0 where
  pub replying_IsValid : (u : World remote) → IsValid u.near → IsValid (waits.replying u).near
  pub fetching_IsValid : (u : World remote) → IsValid u.near → IsValid (waits.fetching u).near
  pub saving_near : (u : World remote) → (waits.saving u).near ≡ u.near

-- An entry with the TTL `life` in seconds, written at `now`, lives at `later`; 0 is for ever.
abbrev pub Lives : ℕ → ℕ → ℕ → Type 0
Lives life now later = (life ≡ 0) ⊎ (later ≤ now + life * 1000)

Lives-test :
    (life now later : ℕ)
    → Lives life now later
    → (ltb 0 life && ltb (now + life * 1000) later) ≡ false
Lives-test life now later (inl h) = ground arith
Lives-test life now later (inr h) = ground arith

module _ {K V : Type 0} (dec : Discrete K) (ttl_with_offset : ℕ → Option ℕ → Option ℕ → ℕ)
    (remote : Remote K V) where
  abbrev pub life_of : ℕ → SetOptions → ℕ
  life_of s opts = ttl_with_offset s opts.max_ttl_offset opts.min_ttl_for_offset

  pub local_get-IsValid :
      (now : ℕ) (key : K) (w : World remote)
      → IsValid w.near
      → IsValid (local_get dec ttl_with_offset remote now key w).0.near
  unfolding local_get
  local_get-IsValid now key w h = get-IsValid dec now key w.near h

  module _ (key : K) (opts : SetOptions) (s : ℕ) (at_once : opts.schedule ≡ false)
      (exp : opts.exp ≡ some (seconds s)) where
    pub local_get-local_set :
        (now later : ℕ) (value : Option V) (w : World remote)
        → IsValid w.near
        → Lives (life_of s opts) now later
        → (local_get dec ttl_with_offset remote later key
            (local_set dec ttl_with_offset remote now key value opts w)).1
          ≡ value
    unfolding local_get local_set
    local_get-local_set now later value w h l =
        let ttl : Option.get_or opts.exp (seconds w.near.ttl) ≡ seconds s = rw exp in
        let dead = Lives-test (life_of s opts) now later l in
        let read =
          get-set_seconds dec ttl_with_offset now later s key value opts w.near h at_once ttl in
        ap flat read ∙ rw dead

    pub local_set-IsValid :
        (now : ℕ) (value : Option V) (w : World remote)
        → IsValid w.near
        → IsValid (local_set dec ttl_with_offset remote now key value opts w).near
    unfolding local_set
    local_set-IsValid now value w h = set-IsValid dec ttl_with_offset now key value opts w.near h

    module _ (times : Times) (waits : Waits remote) (quiet : IsQuiet waits) (later : ℕ)
        (lives : Lives (life_of s opts) times.at_reply later)
        (in_order : times.at_reply ≤ times.at_fresh) where
      Lives-fresh : Lives (life_of s opts) times.at_fresh later
      Lives-fresh = elim lives [ inl h ↦ inl h | inr h ↦ inr (omega arith) ]

      -- A world whose local cache has the value.
      abbrev Serves : World remote → V → Type 0
      Serves w v = (local_get dec ttl_with_offset remote later key w).1 ≡ some v

      same_near : (u w : World remote) → u.near ≡ w.near → (v : V) → Serves w v → Serves u v
      unfolding local_get
      same_near u w e v h = rw e h

      save-Serves :
          (v : V) (w : World remote)
          → IsValid w.near
          → Serves
              (waits.saving
                (save_to_caches dec ttl_with_offset remote times.at_fresh key (some v) opts w))
              v
      unfolding save_to_caches
      save-Serves v w h =
          same_near _ (local_set dec ttl_with_offset remote times.at_fresh key (some v) opts w)
            (quiet.saving_near _) v
            (local_get-local_set times.at_fresh later (some v) w h Lives-fresh)

      fetch-Serves :
          (answer : Option (Outcome (Option V))) (v : V) (w : World remote)
          → IsValid w.near
          → (fetch_and_save dec ttl_with_offset remote times waits key answer opts w).1
            ≡ returned (some v)
          → Serves (fetch_and_save dec ttl_with_offset remote times waits key answer opts w).0 v
      unfolding fetch_and_save
      fetch-Serves none v w h e = absurd (cc)
      fetch-Serves (some thrown) v w h e = absurd (cc)
      fetch-Serves (some (returned none)) v w h e = absurd (cc)
      fetch-Serves (some (returned (some fresh))) v w h e =
          let same : fresh ≡ v = cc in rw same (save-Serves v _ (quiet.fetching_IsValid _ h))

      replied-Serves :
          (fetcher : Option (Outcome (Option V))) (reply : Outcome (Option V)) (v : V)
          (w : World remote)
          → IsValid w.near
          → (replied dec ttl_with_offset remote times waits key fetcher opts reply w).1
            ≡ returned (some v)
          → Serves (replied dec ttl_with_offset remote times waits key fetcher opts reply w).0 v
      unfolding replied
      replied-Serves fetcher (returned (some value)) v w h e =
          let same : value ≡ v = cc in
          rw same (local_get-local_set times.at_reply later (some v) w h lives)
      replied-Serves fetcher (returned none) v w h e =
          fetch-Serves fetcher v _ (local_set-IsValid times.at_reply none w h) e
      replied-Serves none thrown v w h e = absurd (cc)
      replied-Serves (some answer) thrown v w h e = fetch-Serves (some answer) v w h e

  module _ (times : Times) (waits : Waits remote) (key : K) (fetcher : Option (Outcome (Option V)))
      (opts : SetOptions) where
    looked_up_miss :
        (p : World remote × Option V)
        → p.1 ≡ none
        → looked_up dec ttl_with_offset remote times waits key fetcher opts p
          ≡ replied dec ttl_with_offset remote times waits key fetcher opts
              (remote.get key p.0.far)
              (waits.replying p.0)
    unfolding looked_up
    looked_up_miss (w, none) e = refl
    looked_up_miss (w, some v) e = absurd (cc)

    looked_up_hit :
        (p : World remote × Option V) (v : V)
        → p.1 ≡ some v
        → looked_up dec ttl_with_offset remote times waits key fetcher opts p
          ≡ (p.0, returned (some v))
    unfolding looked_up
    looked_up_hit (w, none) v e = absurd (cc)
    looked_up_hit (w, some u) v e = let same : u ≡ v = cc in rw same refl

    pub get_cached_or_fetch_hit :
        (w : World remote) (v : V)
        → (local_get dec ttl_with_offset remote times.at_start key w).1 ≡ some v
        → get_cached_or_fetch dec ttl_with_offset remote times waits key fetcher opts w
          ≡ ((local_get dec ttl_with_offset remote times.at_start key w).0, returned (some v))
    unfolding get_cached_or_fetch
    get_cached_or_fetch_hit w v e = looked_up_hit _ v e

    pub get_cached_or_fetch_miss :
        (w : World remote)
        → (local_get dec ttl_with_offset remote times.at_start key w).1 ≡ none
        → get_cached_or_fetch dec ttl_with_offset remote times waits key fetcher opts w
          ≡ replied dec ttl_with_offset remote times waits key fetcher opts
              (remote.get key w.far)
              (waits.replying (local_get dec ttl_with_offset remote times.at_start key w).0)
    unfolding get_cached_or_fetch local_get
    get_cached_or_fetch_miss w e = looked_up_miss _ e

    -- A hit asks nobody.
    served_again :
        (w : World remote) (v : V)
        → (local_get dec ttl_with_offset remote times.at_start key w).1 ≡ some v
        → (let r = get_cached_or_fetch dec ttl_with_offset remote times waits key fetcher opts w in
            (r.1 ≡ returned (some v)) × (r.0.far ≡ w.far) × (r.0.fetches ≡ w.fetches))
    unfolding local_get
    served_again w v e = rw (get_cached_or_fetch_hit w v e) (refl, refl, refl)

  -- What `getCachedOrFetch` returned after the local cache had nothing, a call while the entry's
  -- time runs returns again, from the local cache alone: it asks neither the remote cache nor its
  -- fetcher, whatever they would answer. For immediate writes with a TTL of `s` seconds (its offset
  -- added, 0 for ever) and a valid local cache; what others do while the first call waits keeps the
  -- cache valid, and leaves it alone during the last wait.
  pub get_cached_or_fetch_twice :
      (times again : Times) (waits waits' : Waits remote) (key : K)
      (fetcher fetcher' : Option (Outcome (Option V))) (opts opts' : SetOptions) (s : ℕ) (v : V)
      (w : World remote)
      → IsQuiet waits
      → IsValid w.near
      → opts.schedule ≡ false
      → opts.exp ≡ some (seconds s)
      → times.at_reply ≤ times.at_fresh
      → Lives (life_of s opts) times.at_reply again.at_start
      → (local_get dec ttl_with_offset remote times.at_start key w).1 ≡ none
      → (get_cached_or_fetch dec ttl_with_offset remote times waits key fetcher opts w).1
        ≡ returned (some v)
      → (let w' =
            (get_cached_or_fetch dec ttl_with_offset remote times waits key fetcher opts w).0 in
          let r =
            get_cached_or_fetch dec ttl_with_offset remote again waits' key fetcher' opts' w' in
          (r.1 ≡ returned (some v)) × (r.0.far ≡ w'.far) × (r.0.fetches ≡ w'.fetches))
  get_cached_or_fetch_twice times again waits waits' key fetcher fetcher' opts opts' s v w quiet h
        at_once exp in_order lives miss result =
      let step = get_cached_or_fetch_miss times waits key fetcher opts w miss in
      let first = local_get-IsValid times.at_start key w h in
      let answered = sym (ap (λ (p : World remote × Outcome (Option V)). p.1) step) ∙ result in
      let served =
        replied-Serves key opts s at_once exp times waits quiet again.at_start lives in_order
          fetcher (remote.get key w.far) v _ (quiet.replying_IsValid _ first) answered in
      served_again again waits' key fetcher' opts' _ v (rw step served)
