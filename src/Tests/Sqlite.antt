-- ===== src/Tests/Sqlite.antt =====
-- The key-value store on a table that is a list of entries.
use datamaster.Prelude.{◌≡◌, refl, Option, none, some, List, [], ◌∷◌, String, String_discrete, ite}
use datamaster.Cache.Qlru.{seconds, keep_ttl}
use datamaster.Sqlite.Local.{Database, KvEntry, Field, text, decimal}
use datamaster.Sqlite.Kv
use datamaster.Sqlite.Kv.{Json, Reply, undefined, found}
use datamaster.Sqlite.Kv.History.{Call, set, delete, run_store, run_abstract, live, get-run_store}

-- A value is its text.
abbrev json : Json String
json = record { stringify = λ v. v; parse = λ t. some t; parse-stringify = λ v. refl }

abbrev Table : Type 0
Table = String → Option KvEntry

abbrev select_rows : List Field → Table → Option KvEntry
select_rows (text key ∷ []) rows = rows key
select_rows _ rows = none

abbrev change_rows : List Field → Table → Table
change_rows [] rows = λ k. none
change_rows (text key ∷ []) rows = λ k. ite (String_discrete key k) none (rows k)
change_rows (text value ∷ decimal e ∷ decimal t ∷ text key ∷ []) rows = λ k.
    ite (String_discrete key k)
      (some (record { key = key; value = value; expiration_time = e; ttl = t })) (rows k)
change_rows _ rows = rows

abbrev database : Database
database = record {
  Db = Table;
  exec = λ sql rows. rows;
  get = λ sql fields rows. select_rows fields rows;
  run = λ sql fields rows. change_rows fields rows;
  select_replaced = λ j k v e t rows. refl;
  select_deleted = λ j k rows. refl;
  select_flushed = λ j rows. refl;
  select_created = λ j rows. refl;
}

abbrev calls : List (Call String)
calls =
    set 1000 "a" "first" (seconds 2)
    ∷ set 1500 "b" "other" (seconds 0)
    ∷ set 2000 "a" "second" keep_ttl
    ∷ delete "b"
    ∷ []

get-run_store_example :
    Kv.get json database 3000 "a"
      (run_store json database calls (Kv.initialize json database (λ k. none)))
    ≡ found "second"
unfolding run_abstract String_discrete
get-run_store_example = get-run_store json database calls 3000 "a" (λ k. none) (λ k. refl)

-- A write with KEEPTTL past the deadline is lost.
kept_too_late :
    live {V = String} 4000 (
      run_abstract
        (set 1000 "a" "first" (seconds 2) ∷ set 3500 "a" "second" keep_ttl ∷ [])
        (λ k. none)
        "a")
    ≡ undefined
unfolding run_abstract String_discrete
kept_too_late = refl
