-- ===== src/Cache/Provider/Soft.antt =====
-- `getCachedOrRevalidate`: a stale value is served at once and replaced in the background.
use datamaster.Prelude.{
  ℕ, ◌+◌, ◌*◌, ◌<◌, ◌≡◌, refl, ap, ◌∙◌, true, false, Option, none, some, List, [], ◌∷◌, ◌++◌,
  lt→ltb,
}
use datamaster.Cache.Qlru.{SetOptions, seconds}
use datamaster.Cache.Qlru.Invariant.{IsValid}
use datamaster.Cache.Provider.{
  Outcome, returned, Remote, Stamped, Times, World, Waits, local_get, local_set, save_to_caches,
  is_fresh, run_refresh, refresh_first, refreshed, soft_replied, soft_looked_up, ask_remote,
  get_cached_or_revalidate,
}
use datamaster.Cache.Provider.Reads.{
  IsQuiet, Lives, life_of, local_get-IsValid, local_get-local_set, local_set-IsValid,
}

-- The local cache has nothing that is young enough.
abbrev pub IsStale : {V : Type 0} → ℕ → ℕ → Option (Stamped V) → Type 0
IsStale now soft_ttl none = Unit
IsStale now soft_ttl (some entry) = is_fresh now soft_ttl entry ≡ false

module _ {K V : Type 0} (dec : Discrete K) (ttl_with_offset : ℕ → Option ℕ → Option ℕ → ℕ)
    (remote : Remote K (Stamped V)) where
  module _ (times : Times) (waits : Waits remote) (key : K) (soft_ttl : ℕ)
      (fetcher : Option (Outcome (Option V))) (opts : SetOptions) where
    looked_up_stale :
        (p : World remote × Option (Stamped V))
        → IsStale times.at_start soft_ttl p.1
        → soft_looked_up dec ttl_with_offset remote times waits key soft_ttl fetcher opts p
          ≡ soft_replied dec ttl_with_offset remote times waits key soft_ttl fetcher opts
              (remote.get key p.0.far)
              (waits.replying p.0)
    unfolding soft_looked_up ask_remote
    looked_up_stale (w, none) h = refl
    looked_up_stale (w, some entry) h = rw h refl

    revalidate_stale :
        (w : World remote)
        → IsStale times.at_start soft_ttl
            (local_get dec ttl_with_offset remote times.at_start key w).1
        → get_cached_or_revalidate dec ttl_with_offset remote times waits key soft_ttl fetcher opts
            w
          ≡ soft_replied dec ttl_with_offset remote times waits key soft_ttl fetcher opts
              (remote.get key w.far)
              (waits.replying (local_get dec ttl_with_offset remote times.at_start key w).0)
    unfolding get_cached_or_revalidate local_get
    revalidate_stale w h = looked_up_stale _ h

    looked_up_fresh :
        (p : World remote × Option (Stamped V)) (entry : Stamped V)
        → p.1 ≡ some entry
        → is_fresh times.at_start soft_ttl entry ≡ true
        → soft_looked_up dec ttl_with_offset remote times waits key soft_ttl fetcher opts p
          ≡ (p.0, returned entry.value)
    unfolding soft_looked_up
    looked_up_fresh (w, none) entry e h = absurd (cc)
    looked_up_fresh (w, some found) entry e h = let same : found ≡ entry = cc in rw (same, h) refl

    -- A young entry of the local cache is served from there.
    revalidate_fresh :
        (w : World remote) (entry : Stamped V)
        → (local_get dec ttl_with_offset remote times.at_start key w).1 ≡ some entry
        → is_fresh times.at_start soft_ttl entry ≡ true
        → (let r =
              get_cached_or_revalidate dec ttl_with_offset remote times waits key soft_ttl fetcher
                opts w in
            (r.1 ≡ returned entry.value)
            × (r.0.far ≡ w.far)
            × (r.0.fetches ≡ w.fetches)
            × (r.0.refreshes ≡ w.refreshes))
    unfolding get_cached_or_revalidate local_get
    revalidate_fresh w entry e h =
        rw (looked_up_fresh (local_get dec ttl_with_offset remote times.at_start key w) entry e h)
          (refl, refl, refl, refl)

  local_get_refreshes :
      (now : ℕ) (key : K) (w : World remote)
      → (local_get dec ttl_with_offset remote now key w).0.refreshes ≡ w.refreshes
  unfolding local_get
  local_get_refreshes now key w = refl

  -- The world after a stale value was served.
  abbrev queued_world : ℕ → K → SetOptions → Stamped V → World remote → World remote
  queued_world now key opts entry w =
      local_set dec ttl_with_offset remote now key (some entry) opts
        (record w { refreshes = w.refreshes ++ (key, opts) ∷ [] })

  serve_stale :
      (times : Times) (waits : Waits remote) (key : K) (soft_ttl : ℕ) (answer : Outcome (Option V))
      (opts : SetOptions) (entry : Stamped V) (w : World remote)
      → is_fresh times.at_reply soft_ttl entry ≡ false
      → soft_replied dec ttl_with_offset remote times waits key soft_ttl
          (some answer)
          opts
          (returned (some entry))
          w
        ≡ (queued_world times.at_reply key opts entry w, returned entry.value)
  unfolding soft_replied
  serve_stale times waits key soft_ttl answer opts entry w old = rw old refl

  module _ (key : K) (opts : SetOptions) (s : ℕ) (at_once : opts.schedule ≡ false)
      (exp : opts.exp ≡ some (seconds s)) where
    run_refresh_first :
        (now : ℕ) (fresh : Option V) (w : World remote) (rest : List (K × SetOptions))
        → w.refreshes ≡ (key, opts) ∷ rest
        → run_refresh dec ttl_with_offset remote now (returned fresh) w
          ≡ save_to_caches dec ttl_with_offset remote now key
              (some (record { value = fresh; timestamp = now }))
              opts
              (record w { refreshes = rest; fetches = w.fetches + 1 })
    unfolding run_refresh refresh_first refreshed
    run_refresh_first now fresh w rest e =
        ap
          (λ (l : List (K × SetOptions)).
            refresh_first dec ttl_with_offset remote now (returned fresh) l w)
          e

    local_get-save :
        (now later : ℕ) (value : Option (Stamped V)) (w : World remote)
        → IsValid w.near
        → Lives (life_of dec ttl_with_offset remote s opts) now later
        → (local_get dec ttl_with_offset remote later key
            (save_to_caches dec ttl_with_offset remote now key value opts w)).1
          ≡ value
    unfolding save_to_caches local_get local_set
    local_get-save now later value w h lives =
        local_get-local_set dec ttl_with_offset remote key opts s at_once exp now later value w h
          lives

    queued_IsValid :
        (before : ℕ) (entry : Stamped V) (w : World remote)
        → IsValid w.near
        → IsValid (queued_world before key opts entry w).near
    queued_IsValid before entry w h =
        local_set-IsValid dec ttl_with_offset remote key opts s at_once exp before (some entry) _ h

    queued_refreshes :
        (before : ℕ) (entry : Stamped V) (w : World remote)
        → w.refreshes ≡ []
        → (queued_world before key opts entry w).refreshes ≡ (key, opts) ∷ []
    unfolding local_set
    queued_refreshes before entry w e = rw e refl

    -- The background refresh puts the fresh value into the local cache.
    refresh_stores :
        (before now later : ℕ) (entry : Stamped V) (fresh : Option V) (w : World remote)
        → IsValid w.near
        → w.refreshes ≡ []
        → Lives (life_of dec ttl_with_offset remote s opts) now later
        → (local_get dec ttl_with_offset remote later key (
            run_refresh dec ttl_with_offset remote now
              (returned fresh)
              (queued_world before key opts entry w))).1
          ≡ some (record { value = fresh; timestamp = now })
    refresh_stores before now later entry fresh w h idle lives =
        let first =
          run_refresh_first now fresh (queued_world before key opts entry w) []
            (queued_refreshes before entry w idle) in
        ap (λ (u : World remote). (local_get dec ttl_with_offset remote later key u).1) first
        ∙ local_get-save now later (some (record { value = fresh; timestamp = now })) _
            (queued_IsValid before entry w h) lives

  -- A value that the remote cache has, but that is older than the soft TTL, is returned at once,
  -- and a refresh is queued. When the refresh runs and its fetcher answers, a call before the
  -- soft TTL and the local entry's time are over returns the fresh value from the local cache alone, whatever the remote cache and its fetcher would answer. For immediate
  -- writes with a TTL of `s` seconds (its offset added, 0 for ever), a valid local cache that has
  -- no young value, and no refresh that waits; what others do while the call waits keeps the cache
  -- valid and queues none.
  pub get_cached_or_revalidate-run_refresh :
      (times again : Times) (waits waits' : Waits remote) (key : K) (soft_ttl : ℕ)
      (answer : Outcome (Option V)) (fetcher : Option (Outcome (Option V)))
      (opts opts' : SetOptions) (s now : ℕ) (entry : Stamped V) (fresh : Option V)
      (w : World remote)
      → IsQuiet waits
      → ((u : World remote) → (waits.replying u).refreshes ≡ u.refreshes)
      → IsValid w.near
      → w.refreshes ≡ []
      → opts.schedule ≡ false
      → opts.exp ≡ some (seconds s)
      → IsStale times.at_start soft_ttl
          (local_get dec ttl_with_offset remote times.at_start key w).1
      → remote.get key w.far ≡ returned (some entry)
      → is_fresh times.at_reply soft_ttl entry ≡ false
      → again.at_start < now + soft_ttl * 1000
      → Lives (life_of dec ttl_with_offset remote s opts) now again.at_start
      → (let r =
            get_cached_or_revalidate dec ttl_with_offset remote times waits key soft_ttl
              (some answer)
              opts
              w in
          let w' = run_refresh dec ttl_with_offset remote now (returned fresh) r.0 in
          let r' =
            get_cached_or_revalidate dec ttl_with_offset remote again waits' key soft_ttl fetcher
              opts' w' in
          (r.1 ≡ returned entry.value)
          × (r'.1 ≡ returned fresh)
          × (r'.0.far ≡ w'.far)
          × (r'.0.fetches ≡ w'.fetches)
          × (r'.0.refreshes ≡ w'.refreshes))
  get_cached_or_revalidate-run_refresh times again waits waits' key soft_ttl answer fetcher opts
        opts' s now entry fresh w quiet still h idle at_once exp stale has old young lives =
      let u = (local_get dec ttl_with_offset remote times.at_start key w).0 in
      let valid =
        quiet.replying_IsValid u
          (local_get-IsValid dec ttl_with_offset remote times.at_start key w h) in
      let step : get_cached_or_revalidate dec ttl_with_offset remote times waits key soft_ttl
            (some answer) opts w
          ≡ (queued_world times.at_reply key opts entry (waits.replying u), returned entry.value) =
        revalidate_stale times waits key soft_ttl (some answer) opts w stale
        ∙ rw has (serve_stale times waits key soft_ttl answer opts entry (waits.replying u) old) in
      let stored =
        refresh_stores key opts s at_once exp times.at_reply now again.at_start entry fresh
          (waits.replying u) valid (still u ∙ local_get_refreshes times.at_start key w ∙ idle)
          lives in
      let test = lt→ltb again.at_start (now + soft_ttl * 1000) young in
      let (value, far, fetches, refreshes) =
        revalidate_fresh again waits' key soft_ttl fetcher opts' _
          (record { value = fresh; timestamp = now }) stored test in
      rw step (refl, value, far, fetches, refreshes)
