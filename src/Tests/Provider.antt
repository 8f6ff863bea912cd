-- ===== src/Tests/Provider.antt =====
-- The cache provider over a remote cache that is a list.
use datamaster.Prelude.{
  ℕ, ◌+◌, ◌≡◌, refl, inr, false, Option, none, some, List, [], ◌∷◌, String, String_discrete, arith,
}
use datamaster.JsMap
use datamaster.Cache.Qlru
use datamaster.Cache.Qlru.{Qlru, SetOptions, seconds}
use datamaster.Cache.Qlru.Invariant.{IsValid}
use datamaster.Cache.Provider.{
  returned, thrown, Remote, Stamped, Times, World, Waits, flat, local_get, local_set,
  save_to_caches, fetch_and_save, replied, looked_up, get_cached_or_fetch, run_refresh,
  get_cached_or_revalidate,
}
use datamaster.Cache.Provider.Reads.{IsQuiet, get_cached_or_fetch_twice}
use datamaster.Cache.Provider.Soft.{get_cached_or_revalidate-run_refresh}

abbrev rows : (E : Type 0) → Remote String E
rows E = record {
  State = List (String × Option E);
  get = λ k s. returned (flat (JsMap.get String_discrete k s));
  set = λ k v opts s. returned (JsMap.set String_discrete k v s);
}

abbrev alone : {E : Type 0} → Waits (rows E)
alone = record { replying = λ u. u; fetching = λ u. u; saving = λ u. u }

alone-IsQuiet : {E : Type 0} → IsQuiet (alone {E = E})
alone-IsQuiet = record {
  replying_IsValid = λ u h. h;
  fetching_IsValid = λ u h. h;
  saving_near = λ u. refl;
}

abbrev offset : ℕ → Option ℕ → Option ℕ → ℕ
offset s max min = s

abbrev minute : SetOptions
minute = record {
  exp = some (seconds 60);
  schedule = false;
  max_ttl_offset = none;
  min_ttl_for_offset = none;
}

abbrev start : {E : Type 0} → List (String × Option E) → World (rows E)
start far = record {
  near = record { cache = []; capacity = 2; ttl = 0; timers = [] };
  far = far;
  fetches = 0;
  refreshes = [];
}

start-IsValid : {E : Type 0} (far : List (String × Option E)) → IsValid (start far).near
start-IsValid far = record {
  positive = omega arith;
  bounded = omega arith;
  distinct = tt;
  coherent = tt;
}

abbrev clock : ℕ → Times
clock now = record { at_start = now; at_reply = now + 10; at_fresh = now + 20 }

-- The first call fetches, the second is served although everything fails.
get_cached_or_fetch_twice_example :
    (let w' =
        (get_cached_or_fetch String_discrete offset
          (rows ℕ)
          (clock 1000)
          alone
          "a"
          (some (returned (some 7)))
          minute
          (start [])).0 in
      let r =
        get_cached_or_fetch String_discrete offset
          (rows ℕ)
          (clock 50000)
          alone
          "a"
          (some thrown)
          minute
          w' in
      (r.1 ≡ returned (some 7)) × (r.0.far ≡ w'.far) × (r.0.fetches ≡ w'.fetches))
unfolding get_cached_or_fetch local_get local_set save_to_caches fetch_and_save replied looked_up
    Qlru.get Qlru.set JsMap.get JsMap.set String_discrete
get_cached_or_fetch_twice_example =
    get_cached_or_fetch_twice String_discrete offset (rows ℕ) (clock 1000) (clock 50000) alone alone
      "a" (some (returned (some 7))) (some thrown) minute minute 60 7 (start []) alone-IsQuiet
      (start-IsValid []) refl refl (omega arith) (inr (omega arith)) refl refl

abbrev old : List (String × Option (Stamped ℕ))
old = ("a", some (record { value = some 6; timestamp = 1000 })) ∷ []

get_cached_or_revalidate-run_refresh_example :
    (let r =
        get_cached_or_revalidate String_discrete offset
          (rows (Stamped ℕ))
          (clock 90000)
          alone
          "a"
          45
          (some (returned (some 7)))
          minute
          (start old) in
      let w' =
        run_refresh String_discrete offset (rows (Stamped ℕ)) 90100 (returned (some 7)) r.0 in
      let r' =
        get_cached_or_revalidate String_discrete offset
          (rows (Stamped ℕ))
          (clock 100000)
          alone
          "a"
          45
          (some thrown)
          minute
          w' in
      (r.1 ≡ returned (some 6))
      × (r'.1 ≡ returned (some 7))
      × (r'.0.far ≡ w'.far)
      × (r'.0.fetches ≡ w'.fetches)
      × (r'.0.refreshes ≡ w'.refreshes))
unfolding local_get Qlru.get JsMap.get String_discrete
get_cached_or_revalidate-run_refresh_example =
    get_cached_or_revalidate-run_refresh String_discrete offset (rows (Stamped ℕ)) (clock 90000)
      (clock 100000) alone alone "a" 45 (returned (some 7)) (some thrown) minute minute 60 90100
      (record { value = some 6; timestamp = 1000 }) (some 7) (start old) alone-IsQuiet (λ u. refl)
      (start-IsValid old) refl refl refl tt refl refl (omega arith) (inr (omega arith))
