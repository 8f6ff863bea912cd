-- ===== src/Sqlite/Kv/History.antt =====
-- The key-value store against its abstract view: a dictionary of values with deadlines.
use datamaster.Prelude.{
  ℕ, ◌+◌, ◌*◌, ◌≡◌, refl, ap, ◌∙◌, Option, none, some, List, [], ◌∷◌, String, String_discrete, ite,
  ltb, ◌==◌, if◌then◌else◌, arith,
}
use datamaster.Cache.Qlru.{Expiry, seconds, keep_ttl}
use datamaster.Sqlite.Local
use datamaster.Sqlite.Local.{Database, KvEntry, Field, text, decimal}
use datamaster.Sqlite.Kv
use datamaster.Sqlite.Kv.{Json, Reply, undefined, syntax_error, found, times, expire}

pub data Lifetime : Type 0 where
  forever : Lifetime
  until : ℕ → Lifetime

-- The abstract store.
abbrev pub Dictionary : Type 0 → Type 0
Dictionary V = String → Option (V × Lifetime)

pub data Call (V : Type 0) : Type 0 where
  set : ℕ → String → V → Expiry → Call V
  delete : String → Call V
  clear : Call V

-- How long a value written now lives: `seconds 0` is for ever, and `KEEPTTL` goes on with what the
-- key had.
abbrev pub lifetime : {V : Type 0} → ℕ → Expiry → Option (V × Lifetime) → Lifetime
lifetime now (seconds n) old = if n == 0 then forever else until (now + n * 1000)
lifetime now keep_ttl none = forever
lifetime now keep_ttl (some (_, life)) = life

abbrev pub call_abstract : {V : Type 0} → Call V → Dictionary V → Dictionary V
call_abstract (set now key value exp) σ =
    λ k. ite (String_discrete key k) (some (value, lifetime now exp (σ key))) (σ k)
call_abstract (delete key) σ = λ k. ite (String_discrete key k) none (σ k)
call_abstract clear σ = λ k. none

unfoldable pub run_abstract : {V : Type 0} → List (Call V) → Dictionary V → Dictionary V
run_abstract [] σ = σ
run_abstract (call ∷ calls) σ = run_abstract calls (call_abstract call σ)

abbrev pub live : {V : Type 0} → ℕ → Option (V × Lifetime) → Reply V
live now none = undefined
live now (some (value, forever)) = found value
live now (some (value, until deadline)) = if ltb deadline now then undefined else found value

module _ {V : Type 0} (json : Json V) (d : Database) where
  abbrev pub call_store : Call V → d.Db → d.Db
  call_store (set now key value exp) db = Kv.set json d now key value exp db
  call_store (delete key) db = Kv.delete json d key db
  call_store clear db = Kv.clear json d db

  unfoldable pub run_store : List (Call V) → d.Db → d.Db
  run_store [] db = db
  run_store (call ∷ calls) db = run_store calls (call_store call db)

  abbrev pub row : String → d.Db → Option KvEntry
  row key db = d.get "SELECT * FROM ZNX_KV WHERE key = ? " (text key ∷ []) db

  abbrev lifetime_of : ℕ → ℕ → Lifetime
  lifetime_of ttl e = if ttl == 0 then forever else until e

  -- What an abstract value is in the table.
  abbrev Shows : Option KvEntry → Option (V × Lifetime) → Type 0
  Shows none none = Unit
  Shows none (some w) = ⊥
  Shows (some entry) none = ⊥
  Shows (some entry) (some (value, life)) =
      (entry.value ≡ json.stringify value) × (lifetime_of entry.ttl entry.expiration_time ≡ life)

  abbrev Simulates : d.Db → Dictionary V → Type 0
  Simulates db σ = (k : String) → Shows (row k db) (σ k)

  get-row :
      (now : ℕ) (key : String) (db : d.Db)
      → Kv.get json d now key db ≡ Kv.read json d now (row key db)
  unfolding Kv.get Local.get_data_by_key Local.select_sql
  get-row now key db = refl

  row-set :
      (now : ℕ) (key : String) (value : V) (exp : Expiry) (db : d.Db) (k : String)
      → row k (Kv.set json d now key value exp db)
        ≡ ite
            (String_discrete key k)
            (some (record {
              key = key;
              value = json.stringify value;
              expiration_time = (times now exp (row key db)).0;
              ttl = (times now exp (row key db)).1;
            }))
            (row k db)
  unfolding Kv.set Local.get_data_by_key Local.select_sql Local.insert_or_update_data
      Local.insert_sql
  row-set now key value exp db k = d.select_replaced k key (json.stringify value) _ _ db

  row-delete :
      (key : String) (db : d.Db) (k : String)
      → row k (Kv.delete json d key db) ≡ ite (String_discrete key k) none (row k db)
  unfolding Kv.delete Local.delete_by_key Local.delete_sql
  row-delete key db k = d.select_deleted k key db

  row-clear : (db : d.Db) (k : String) → row k (Kv.clear json d db) ≡ none
  unfolding Kv.clear Local.flush Local.flush_sql
  row-clear db k = d.select_flushed k db

  row-initialize : (db : d.Db) (k : String) → row k (Kv.initialize json d db) ≡ row k db
  unfolding Kv.initialize Local.create_table Local.create_sql
  row-initialize db k = d.select_created k db

  -- The times of the new row are those of the abstract write.
  times-Shows :
      (now : ℕ) (exp : Expiry) (old : Option KvEntry) (w : Option (V × Lifetime))
      → Shows old w
      → lifetime_of (times now exp old).1 (times now exp old).0 ≡ lifetime now exp w
  unfolding times
  times-Shows now (seconds n) old w h = ground arith
  times-Shows now keep_ttl none none h = refl
  times-Shows now keep_ttl none (some _) h = elim h [ ]
  times-Shows now keep_ttl (some entry) none h = elim h [ ]
  times-Shows now keep_ttl (some entry) (some (value, life)) h = h.1

  read_cases :
      (now : ℕ) (entry : KvEntry) (value : V) (life : Lifetime)
      → lifetime_of entry.ttl entry.expiration_time ≡ life
      → Kv.parsed json d (json.parse entry.value) ≡ found value
      → Kv.read json d now (some entry) ≡ live now (some (value, life))
  unfolding Kv.read
  read_cases now entry value forever h p = rw p (ground arith)
  read_cases now entry value (until t) h p = rw p (ground arith)

  read-Shows :
      (now : ℕ) (old : Option KvEntry) (w : Option (V × Lifetime))
      → Shows old w
      → Kv.read json d now old ≡ live now w
  unfolding Kv.read
  read-Shows now none none h = refl
  read-Shows now none (some _) h = elim h [ ]
  read-Shows now (some entry) none h = elim h [ ]
  read-Shows now (some entry) (some (value, life)) h =
      let p : Kv.parsed json d (json.parse entry.value) ≡ found value =
        rw h.0 (ap (Kv.parsed json d) (json.parse-stringify value)) in
      read_cases now entry value life h.1 p

  Shows-ite :
      {P : Type 0} (test : Dec P) (a b : Option KvEntry) (v w : Option (V × Lifetime))
      → Shows a v
      → Shows b w
      → Shows (ite test a b) (ite test v w)
  Shows-ite (yes p) a b v w h k = h
  Shows-ite (no p) a b v w h k = k

  call-Simulates :
      (call : Call V) (db : d.Db) (σ : Dictionary V)
      → Simulates db σ
      → Simulates (call_store call db) (call_abstract call σ)
  call-Simulates (set now key value exp) db σ h k = rw (row-set now key value exp db k) (
      Shows-ite (String_discrete key k) _ (row k db) (some (value, lifetime now exp (σ key))) (σ k)
        (refl, times-Shows now exp (row key db) (σ key) (h key)) (h k))
  call-Simulates (delete key) db σ h k =
      rw (row-delete key db k)
        (Shows-ite (String_discrete key k) none (row k db) none (σ k) tt (h k))
  call-Simulates clear db σ h k = rw (row-clear db k) tt

  run-Simulates :
      (calls : List (Call V)) (db : d.Db) (σ : Dictionary V)
      → Simulates db σ
      → Simulates (run_store calls db) (run_abstract calls σ)
  unfolding run_store run_abstract
  run-Simulates [] db σ h = h
  run-Simulates (call ∷ calls) db σ h =
      run-Simulates calls (call_store call db) (call_abstract call σ) (call-Simulates call db σ h)

  empty-Simulates : (db : d.Db) → ((k : String) → row k db ≡ none) → Simulates db (λ k. none)
  empty-Simulates db empty k = rw (empty k) tt

  -- The store refines a dictionary of values with deadlines: after whatever calls on a table that
  -- was empty when the store was created, `get` returns what the dictionary has for the key after
  -- the same calls, unless its deadline is over, and never throws. A TTL of 0 is no deadline, and
  -- `KEEPTTL` takes over the deadline of what the key had, also one that is over.
  pub get-run_store :
      (calls : List (Call V)) (now : ℕ) (key : String) (db : d.Db)
      → ((k : String) → row k db ≡ none)
      → Kv.get json d now key (run_store calls (Kv.initialize json d db))
        ≡ live now (run_abstract calls (λ k. none) key)
  get-run_store calls now key db empty =
      get-row now key _
      ∙ read-Shows now _ _ (
          run-Simulates calls (Kv.initialize json d db) (λ k. none)
            (empty-Simulates (Kv.initialize json d db) (λ k. row-initialize db k ∙ empty k)) key)
