-- ===== src/Cache/Provider.antt =====
-- modules/cache/providers/mod.ts: `ZanixCacheCoreProvider`, a local cache in front of a remote one.
-- A stored value may be `undefined`, so that the caches hold values of type `Option V`.
pub mod Reads
pub mod Soft
use datamaster.Prelude.{
  ℕ, ◌+◌, ◌*◌, Bool, true, false, Option, none, some, List, [], ◌∷◌, ◌++◌, ltb, if◌then◌else◌,
}
use datamaster.Cache.Qlru
use datamaster.Cache.Qlru.{Qlru, SetOptions}

-- The result of an awaited call.
pub data Outcome (A : Type 0) : Type 0 where
  returned : A → Outcome A
  thrown : Outcome A

-- The remote cache, as far as the provider uses it.
pub record Remote (K V : Type 0) : Type 1 where
  pub State : Type 0
  pub get : K → State → Outcome (Option V)
  pub set : K → Option V → SetOptions → State → Outcome State

-- A value with the time at which it was fetched.
pub record Stamped (V : Type 0) : Type 0 where
  pub value : Option V
  pub timestamp : ℕ

-- What `Date.now()` reads when a call starts, when the remote cache has replied, and when the
-- fetcher has.
pub record Times : Type 0 where
  pub at_start : ℕ
  pub at_reply : ℕ
  pub at_fresh : ℕ

-- `local.get(key)`, which is `undefined` also for a stored `undefined`.
abbrev pub flat : {V : Type 0} → Option (Option V) → Option V
flat none = none
flat (some value) = value

-- Both caches, and how often a fetcher was called. `refreshes` are the microtasks that wait.
pub record World {K V : Type 0} (remote : Remote K V) : Type 0 where
  pub near : Qlru K (Option V)
  pub far : remote.State
  pub fetches : ℕ
  pub refreshes : List (K × SetOptions)

-- What others do while a call waits for the reply of the remote cache, for the fetcher, and for
-- the write of the remote cache.
pub record Waits {K V : Type 0} (remote : Remote K V) : Type 0 where
  pub replying : World remote → World remote
  pub fetching : World remote → World remote
  pub saving : World remote → World remote

-- A write of the remote cache that failed is logged.
abbrev pub after_write : {S : Type 0} → Outcome S → S → S
after_write thrown old = old
after_write (returned new) old = new

module _ {K V : Type 0} (dec : Discrete K) (ttl_with_offset : ℕ → Option ℕ → Option ℕ → ℕ)
    (remote : Remote K V) where
  unfoldable pub local_get : ℕ → K → World remote → World remote × Option V
  local_get now key w =
      let (near, hit) = Qlru.get dec now key w.near in (record w { near = near }, flat hit)

  unfoldable pub local_set : ℕ → K → Option V → SetOptions → World remote → World remote
  local_set now key value opts w = record w {
    near = Qlru.set dec ttl_with_offset now key value opts w.near;
  }

  -- `saveToCaches`, up to the wait for the remote write.
  unfoldable pub save_to_caches : ℕ → K → Option V → SetOptions → World remote → World remote
  unfolding local_set
  save_to_caches now key value opts w = record (local_set now key value opts w) {
    far = after_write (remote.set key value opts w.far) w.far;
  }

  module _ (times : Times) (waits : Waits remote) (key : K) (fetcher : Option (Outcome (Option V)))
      (opts : SetOptions) where
    fetched : Outcome (Option V) → World remote → World remote × Outcome (Option V)
    fetched thrown w = (w, thrown)
    fetched (returned fresh) w =
        (waits.saving (save_to_caches times.at_fresh key fresh opts w), returned fresh)

    -- From `if (!fetcher) return undefined` on.
    unfoldable pub fetch_and_save : World remote → World remote × Outcome (Option V)
    unfolding fetched
    fetch_and_save w = elim fetcher [
      | none ↦ (w, returned none)
      | some answer ↦ fetched answer (waits.fetching (record w { fetches = w.fetches + 1 }))
    ]

    -- After the reply of the remote cache.
    unfoldable pub replied : Outcome (Option V) → World remote → World remote × Outcome (Option V)
    replied (returned (some value)) w =
        (local_set times.at_reply key (some value) opts w, returned (some value))
    replied (returned none) w = fetch_and_save (local_set times.at_reply key none opts w)
    replied thrown w = elim fetcher [ none ↦ (w, thrown) | some _ ↦ fetch_and_save w ]

    unfoldable pub looked_up : World remote × Option V → World remote × Outcome (Option V)
    looked_up (w, some value) = (w, returned (some value))
    looked_up (w, none) = replied (remote.get key w.far) (waits.replying w)

    -- `getCachedOrFetch`; the fetcher is given by what it answers.
    unfoldable pub get_cached_or_fetch : World remote → World remote × Outcome (Option V)
    unfolding looked_up
    get_cached_or_fetch w = looked_up (local_get times.at_start key w)

-- `getAge(timestamp) < softTtl`, in seconds.
abbrev pub is_fresh : {V : Type 0} → ℕ → ℕ → Stamped V → Bool
is_fresh now soft_ttl entry = ltb now (entry.timestamp + soft_ttl * 1000)

module _ {K V : Type 0} (dec : Discrete K) (ttl_with_offset : ℕ → Option ℕ → Option ℕ → ℕ)
    (remote : Remote K (Stamped V)) where
  refreshed : ℕ → K → SetOptions → Outcome (Option V) → World remote → World remote
  refreshed now key opts thrown w = w
  refreshed now key opts (returned fresh) w =
      save_to_caches dec ttl_with_offset remote now key
        (some (record { value = fresh; timestamp = now })) opts w

  refresh_first : ℕ → Outcome (Option V) → List (K × SetOptions) → World remote → World remote
  unfolding refreshed
  refresh_first now answer [] w = w
  refresh_first now answer ((key, opts) ∷ rest) w =
      refreshed now key opts answer (record w { refreshes = rest; fetches = w.fetches + 1 })

  -- The first microtask runs: its fetcher answers, and both caches are written.
  unfoldable pub run_refresh : ℕ → Outcome (Option V) → World remote → World remote
  unfolding refresh_first
  run_refresh now answer w = refresh_first now answer w.refreshes w

  module _ (times : Times) (waits : Waits remote) (key : K) (soft_ttl : ℕ)
      (fetcher : Option (Outcome (Option V))) (opts : SetOptions) where
    stamped : Outcome (Option V) → World remote → World remote × Outcome (Option V)
    stamped thrown w = (w, thrown)
    stamped (returned fresh) w = (
      waits.saving (
          save_to_caches dec ttl_with_offset remote times.at_fresh key
            (some (record { value = fresh; timestamp = times.at_fresh })) opts w),
      returned fresh,
    )

    unfoldable pub fetch_and_stamp : World remote → World remote × Outcome (Option V)
    unfolding stamped
    fetch_and_stamp w = elim fetcher [
      | none ↦ (w, returned none)
      | some answer ↦ stamped answer (waits.fetching (record w { fetches = w.fetches + 1 }))
    ]

    -- `queueMicrotask`, if there is a fetcher.
    abbrev pub queued : Option (Outcome (Option V)) → World remote → World remote
    queued none w = w
    queued (some _) w = record w { refreshes = w.refreshes ++ (key, opts) ∷ [] }

    unfoldable pub soft_replied :
        Outcome (Option (Stamped V)) → World remote → World remote × Outcome (Option V)
    soft_replied (returned (some entry)) w = (
      local_set dec ttl_with_offset remote times.at_reply key (some entry) opts
          (if is_fresh times.at_reply soft_ttl entry then w else queued fetcher w),
      returned entry.value,
    )
    soft_replied (returned none) w = fetch_and_stamp w
    soft_replied thrown w = elim fetcher [ none ↦ (w, thrown) | some _ ↦ fetch_and_stamp w ]

    unfoldable pub ask_remote : World remote → World remote × Outcome (Option V)
    ask_remote w = soft_replied (remote.get key w.far) (waits.replying w)

    unfoldable pub soft_looked_up :
        World remote × Option (Stamped V) → World remote × Outcome (Option V)
    soft_looked_up (w, none) = ask_remote w
    soft_looked_up (w, some entry) =
        if is_fresh times.at_start soft_ttl entry then (w, returned entry.value) else ask_remote w

    -- `getCachedOrRevalidate`
    unfoldable pub get_cached_or_revalidate : World remote → World remote × Outcome (Option V)
    unfolding soft_looked_up ask_remote
    get_cached_or_revalidate w =
        soft_looked_up (local_get dec ttl_with_offset remote times.at_start key w)
