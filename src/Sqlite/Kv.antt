-- ===== src/Sqlite/Kv.antt =====
-- database/providers/sqlite/connector.ts: `ZanixKVStoreConnector`. A method takes the time that
-- `Date.now()` reads. A TTL is a natural number of seconds.
pub mod History
use datamaster.Prelude.{
  ℕ, ◌+◌, ◌*◌, ◌≡◌, Bool, true, false, ◌&&◌, Option, none, some, List, [], ◌∷◌, String, ltb,
  if◌then◌else◌,
}
use datamaster.Storage.Text.{to_upper}
use datamaster.Cache.Qlru.{Expiry, seconds, keep_ttl}
use datamaster.Sqlite.Local
use datamaster.Sqlite.Local.{Database, KvEntry, Field, text, decimal}

-- `JSON`: values that it can write are read back.
pub record Json (V : Type 0) : Type 0 where
  pub stringify : V → String
  pub parse : String → Option V
  pub parse-stringify : (v : V) → parse (stringify v) ≡ some v

-- What `get` gives: `none` of `found` is `undefined`; `syntax_error` is thrown by `JSON.parse`.
pub data Reply (V : Type 0) : Type 0 where
  undefined syntax_error : Reply V
  found : V → Reply V

-- The table's name after the constructor of `LocalSQLite`.
unfoldable pub table : String
unfolding to_upper
table = to_upper "znx_kv"

-- `expire(ttl)`
abbrev pub expire : ℕ → ℕ → ℕ
expire now ttl = if ltb 0 ttl then now + ttl * 1000 else 0

abbrev pub old_expiration : Option KvEntry → ℕ
old_expiration none = 0
old_expiration (some old) = old.expiration_time

abbrev pub old_ttl : Option KvEntry → ℕ
old_ttl none = 0
old_ttl (some old) = old.ttl

-- `data.expirationTime` and `data.ttl` of `set`.
unfoldable pub times : ℕ → Expiry → Option KvEntry → ℕ × ℕ
times now (seconds exp) old = (expire now exp, exp * 1000)
times now keep_ttl old = (old_expiration old, old_ttl old)

module _ {V : Type 0} (json : Json V) (d : Database) where
  unfoldable pub initialize : d.Db → d.Db
  unfolding table
  initialize =
      Local.create_table d table
        (("key", "TEXT") ∷ ("value", "TEXT") ∷ ("expirationTime", "TEXT") ∷ ("ttl", "TEXT") ∷ [])
        (some ("key" ∷ []))

  abbrev pub parsed : Option V → Reply V
  parsed none = syntax_error
  parsed (some value) = found value

  unfoldable pub read : ℕ → Option KvEntry → Reply V
  read now none = undefined
  read now (some entry) =
      if ltb 0 entry.ttl && ltb entry.expiration_time now
      then undefined
      else parsed (json.parse entry.value)

  unfoldable pub get : ℕ → String → d.Db → Reply V
  unfolding table read
  get now key db = read now (Local.get_data_by_key d table (("key", text key) ∷ []) db)

  unfoldable pub set : ℕ → String → V → Expiry → d.Db → d.Db
  unfolding table
  set now key value exp db =
      let (expiration_time, ttl) =
        times now exp (Local.get_data_by_key d table (("key", text key) ∷ []) db) in
      Local.insert_or_update_data d table
        (("value", text (json.stringify value))
          ∷ ("expirationTime", decimal expiration_time)
          ∷ ("ttl", decimal ttl)
          ∷ ("key", text key)
          ∷ [])
        db

  unfoldable pub delete : String → d.Db → d.Db
  unfolding table
  delete key = Local.delete_by_key d table (("key", text key) ∷ [])

  unfoldable pub clear : d.Db → d.Db
  unfolding table
  clear = Local.flush d table
