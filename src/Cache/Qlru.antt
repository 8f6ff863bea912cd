-- ===== src/Cache/Qlru.antt =====
-- modules/cache/providers/qlru/connector.ts: `ZanixQLRUConnector`. A method takes the time that
-- `Date.now()` reads, and returns the new state beside its result. Times are natural numbers.
pub mod Calls
pub mod Eviction
pub mod Invariant
pub mod Lookups
pub mod Reads
use datamaster.Prelude.{
  ℕ, ◌+◌, ◌*◌, Bool, true, false, ◌&&◌, Option, none, some, List, [], ◌∷◌, ◌++◌, map, leb, ltb,
  is_some, ◌==◌, length, if◌then◌else◌,
}
use datamaster.JsMap
use mathlib.Core.Option

pub data Result {ℓ} (A : Type ℓ) : Type ℓ where
  ok : A → Result A
  internal_error : Result A

-- `ExpiredValueEntry`: times in milliseconds, 0 where no TTL was set.
pub record Entry (V : Type 0) : Type 0 where
  pub value : V
  pub expiration_time : ℕ
  pub ttl : ℕ

-- `number | 'KEEPTTL'`, in seconds.
pub data Expiry : Type 0 where
  seconds : ℕ → Expiry
  keep_ttl : Expiry

pub record SetOptions : Type 0 where
  pub exp : Option Expiry
  pub schedule : Bool
  pub max_ttl_offset : Option ℕ
  pub min_ttl_for_offset : Option ℕ

-- The fields of the connector, and the writes that `setTimeout` has yet to run.
pub record Qlru (K V : Type 0) : Type 0 where
  pub cache : List (K × Entry V)
  pub capacity : ℕ
  pub ttl : ℕ
  pub timers : List (K × V × SetOptions)

-- `Number(Deno.env.get(...)) || 50000`; `none` is an absent or unreadable variable.
default_capacity : Option ℕ → ℕ
default_capacity none = 50000
default_capacity (some n) = if n == 0 then 50000 else n

-- The constructor: the environment's capacity, the option's, and the default TTL.
unfoldable pub create : {K V : Type 0} → Option ℕ → Option ℕ → ℕ → Result (Qlru K V)
unfolding default_capacity
create env capacity ttl =
    let size = Option.get_or capacity (default_capacity env) in
    if leb size 0
    then internal_error
    else ok (record { cache = []; capacity = size; ttl = ttl; timers = [] })

-- `entry.ttl > 0 && Date.now() > entry.expirationTime`
abbrev pub is_expired : {V : Type 0} → ℕ → Entry V → Bool
is_expired now e = ltb 0 e.ttl && ltb e.expiration_time now

-- The test of `evict`.
abbrev pub is_stale : {V : Type 0} → ℕ → Entry V → Bool
is_stale now e = ltb 0 e.expiration_time && ltb e.expiration_time now

-- `expire(ttl)`
abbrev pub expire : ℕ → ℕ → ℕ
expire now ttl = if ltb 0 ttl then now + ttl * 1000 else 0

unfoldable pub clear : {K V : Type 0} → Qlru K V → Qlru K V
clear c = record c { cache = [] }

module _ {K V : Type 0} (dec : Discrete K) where
  unfoldable pub get : ℕ → K → Qlru K V → Qlru K V × Option V
  get now key c = elim (JsMap.get dec key c.cache) [
    | none ↦ (c, none)
    | some entry ↦
        if is_expired now entry
        then (record c { cache = JsMap.delete dec key c.cache }, none)
        else (
          record c { cache = JsMap.set dec key entry (JsMap.delete dec key c.cache) },
          some entry.value,
        )
  ]

  unfoldable pub has : ℕ → K → Qlru K V → Qlru K V × Bool
  has now key c = elim (JsMap.get dec key c.cache) [
    | none ↦ (c, false)
    | some entry ↦
        if is_expired now entry
        then (record c { cache = JsMap.delete dec key c.cache }, false)
        else (c, true)
  ]

  unfoldable pub delete : K → Qlru K V → Qlru K V × Bool
  delete key c =
      (record c { cache = JsMap.delete dec key c.cache }, is_some (JsMap.get dec key c.cache))

  -- The loop of `evict` over the entries.
  evict_from : ℕ → List (K × Entry V) → List (K × Entry V) → List (K × Entry V)
  evict_from now [] cache = cache
  evict_from now ((key, entry) ∷ rest) cache =
      evict_from now rest (if is_stale now entry then JsMap.delete dec key cache else cache)

  unfoldable pub evict : ℕ → Qlru K V → Qlru K V
  unfolding evict_from
  evict now c = record c { cache = evict_from now c.cache c.cache }

  unfoldable pub size : ℕ → Qlru K V → Qlru K V × ℕ
  size now c = let c' = evict now c in (c', length c'.cache)

  unfoldable pub keys : ℕ → Qlru K V → Qlru K V × List K
  keys now c = let c' = evict now c in (c', JsMap.keys c'.cache)

  unfoldable pub values : ℕ → Qlru K V → Qlru K V × List V
  values now c =
      let c' = evict now c in (c', map (λ (e : Entry V). e.value) (JsMap.values c'.cache))

  -- `if (oldValue) this.#cache.delete(key)`
  unfoldable pub reorder : K → List (K × Entry V) → List (K × Entry V)
  reorder key cache = elim (JsMap.get dec key cache) [
    | none ↦ cache
    | some _ ↦ JsMap.delete dec key cache
  ]

  -- Evicts the least recently used entry of a map over its capacity.
  unfoldable pub shrink : ℕ → List (K × Entry V) → List (K × Entry V)
  shrink capacity cache =
      if ltb capacity (length cache)
      then elim (JsMap.first_key cache) [
        | none ↦ cache
        | some oldest ↦ JsMap.delete dec oldest cache
      ]
      else cache

  -- The parameter is `getTTLWithOffset` of the base class, which adds a random offset.
  module _ (ttl_with_offset : ℕ → Option ℕ → Option ℕ → ℕ) where
    -- `opts` after the branches on `exp ?? this.ttl`, from the entry that the key had.
    entry_for : ℕ → V → SetOptions → ℕ → Expiry → Option (Entry V) → Entry V
    entry_for now value options ttl keep_ttl none = record {
      value = value;
      expiration_time = expire now ttl;
      ttl = ttl * 1000;
    }
    entry_for now value options ttl keep_ttl (some old) = record old { value = value }
    entry_for now value options ttl (seconds s) old =
        let s' = ttl_with_offset s options.max_ttl_offset options.min_ttl_for_offset in
        record { value = value; expiration_time = expire now s'; ttl = s' * 1000 }

    -- The entry that `set` stores, from the entry that the key had.
    unfoldable pub new_entry : ℕ → K → V → SetOptions → Qlru K V → Entry V
    unfolding entry_for
    new_entry now key value options c =
        entry_for now value options c.ttl (Option.get_or options.exp (seconds c.ttl))
          (JsMap.get dec key c.cache)

    -- The body of `set` past the deferred case.
    unfoldable pub set_now : ℕ → K → V → SetOptions → Qlru K V → Qlru K V
    set_now now key value options c =
        let entry = new_entry now key value options c in
        record c { cache = shrink c.capacity (JsMap.set dec key entry (reorder key c.cache)) }

    unfoldable pub set : ℕ → K → V → SetOptions → Qlru K V → Qlru K V
    set now key value options c =
        if options.schedule
        then record c {
          timers = c.timers ++ (key, value, record options { schedule = false }) ∷ [];
        }
        else set_now now key value options c

    fire_first : ℕ → List (K × V × SetOptions) → Qlru K V → Qlru K V
    fire_first now [] c = c
    fire_first now ((key, value, options) ∷ rest) c =
        set now key value options (record c { timers = rest })

    -- The timer of the first deferred write fires.
    unfoldable pub fire_timer : ℕ → Qlru K V → Qlru K V
    unfolding fire_first
    fire_timer now c = fire_first now c.timers c
