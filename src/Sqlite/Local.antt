-- ===== src/Sqlite/Local.antt =====
-- database/utils/sqlite.ts: `LocalSQLite` builds the texts of the statements that it runs.
use Prim.Native.String.{◌++◌}
use datamaster.Prelude.{ℕ, ◌≡◌, Option, none, some, List, [], ◌∷◌, String, String_discrete, ite}

-- A value bound to a statement: a text, or the decimal text of a number.
pub data Field : Type 0 where
  text : String → Field
  decimal : ℕ → Field

-- `KVEntry`, a row of the store's table; its numbers stand in columns of text.
pub record KvEntry : Type 0 where
  pub key : String
  pub value : String
  pub expiration_time : ℕ
  pub ttl : ℕ

-- `texts.join(separator)`
unfoldable pub join : String → List String → String
join separator [] = ""
join separator (t ∷ []) = t
join separator (t ∷ u ∷ ts) = t ++ (separator ++ join separator (u ∷ ts))

-- `keys(value).map((k) => `${k} = ?`)`
abbrev pub equations : List (String × Field) → List String
equations [] = []
equations ((column, _) ∷ fields) = (column ++ " = ?") ∷ equations fields

abbrev pub columns : List (String × Field) → List String
columns [] = []
columns ((column, _) ∷ fields) = column ∷ columns fields

abbrev pub fields_of : List (String × Field) → List Field
fields_of [] = []
fields_of ((_, field) ∷ fields) = field ∷ fields_of fields

abbrev pub placeholders : List (String × Field) → List String
placeholders [] = []
placeholders ((_, field) ∷ fields) = "?" ∷ placeholders fields

abbrev pub definitions_text : List (String × String) → List String
definitions_text [] = []
definitions_text ((column, type) ∷ rest) = (column ++ (" " ++ type)) ∷ definitions_text rest

-- `createTable`, less the blanks and line ends of the text. An array in a template is joined by ','.
unfoldable pub create_sql : String → List (String × String) → Option (List String) → String
unfolding join
create_sql table definitions primary_key =
    "CREATE TABLE IF NOT EXISTS "
    ++ (table
        ++ (" ("
            ++ (join "," (definitions_text definitions)
                ++ (elim primary_key [
                  | none ↦ ""
                  | some keys ↦ ", PRIMARY KEY (" ++ (join "," keys ++ ")")
                ]
                    ++ ")"))))

-- The text of `getDataByKey` with no order.
unfoldable pub select_sql : String → List (String × Field) → String
unfolding join
select_sql table value =
    "SELECT * FROM " ++ (table ++ (" WHERE " ++ (join " AND " (equations value) ++ " ")))

unfoldable pub insert_sql : String → List (String × Field) → String
unfolding join
insert_sql table row =
    "INSERT OR REPLACE INTO "
    ++ (table
        ++ (" ("
            ++ (join "," (columns row) ++ (") VALUES (" ++ (join "," (placeholders row) ++ ")")))))

unfoldable pub delete_sql : String → List (String × Field) → String
unfolding join
delete_sql table value = "DELETE FROM " ++ (table ++ (" WHERE " ++ join " AND " (equations value)))

unfoldable pub flush_sql : String → String
flush_sql table = "DELETE FROM " ++ table

-- What the module uses of `Database` of sqlite3: `exec`, and `get` and `run` of a prepared
-- statement; with what SQLite does on the four statements over a table of entries with the primary
-- key `key`.
pub record Database : Type 1 where
  pub Db : Type 0
  pub exec : String → Db → Db
  pub get : String → List Field → Db → Option KvEntry
  pub run : String → List Field → Db → Db
  pub select_replaced :
      (j k v : String) (e t : ℕ) (db : Db)
      → get "SELECT * FROM ZNX_KV WHERE key = ? " (text j ∷ []) (
          run "INSERT OR REPLACE INTO ZNX_KV (value,expirationTime,ttl,key) VALUES (?,?,?,?)"
            (text v ∷ decimal e ∷ decimal t ∷ text k ∷ [])
            db)
        ≡ ite
            (String_discrete k j)
            (some (record { key = k; value = v; expiration_time = e; ttl = t }))
            (get "SELECT * FROM ZNX_KV WHERE key = ? " (text j ∷ []) db)
  pub select_deleted :
      (j k : String) (db : Db)
      → get "SELECT * FROM ZNX_KV WHERE key = ? "
          (text j ∷ [])
          (run "DELETE FROM ZNX_KV WHERE key = ?" (text k ∷ []) db)
        ≡ ite
            (String_discrete k j)
            none
            (get "SELECT * FROM ZNX_KV WHERE key = ? " (text j ∷ []) db)
  pub select_flushed :
      (j : String) (db : Db)
      → get "SELECT * FROM ZNX_KV WHERE key = ? " (text j ∷ []) (run "DELETE FROM ZNX_KV" [] db)
        ≡ none
  -- The statement leaves a table that is there as it is.
  pub select_created :
      (j : String) (db : Db)
      → get "SELECT * FROM ZNX_KV WHERE key = ? " (text j ∷ []) (
          exec
            "CREATE TABLE IF NOT EXISTS ZNX_KV (key TEXT,value TEXT,expirationTime TEXT,ttl TEXT, PRIMARY KEY (key))"
            db)
        ≡ get "SELECT * FROM ZNX_KV WHERE key = ? " (text j ∷ []) db

module _ (d : Database) (table : String) where
  unfoldable pub create_table : List (String × String) → Option (List String) → d.Db → d.Db
  create_table definitions primary_key = d.exec (create_sql table definitions primary_key)

  unfoldable pub get_data_by_key : List (String × Field) → d.Db → Option KvEntry
  get_data_by_key value = d.get (select_sql table value) (fields_of value)

  unfoldable pub insert_or_update_data : List (String × Field) → d.Db → d.Db
  insert_or_update_data row = d.run (insert_sql table row) (fields_of row)

  unfoldable pub delete_by_key : List (String × Field) → d.Db → d.Db
  delete_by_key value = d.run (delete_sql table value) (fields_of value)

  unfoldable pub flush : d.Db → d.Db
  flush = d.run (flush_sql table) []
