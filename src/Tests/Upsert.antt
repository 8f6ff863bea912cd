-- ===== src/Tests/Upsert.antt =====
-- Upserts by id on a database that keeps the updates it got, with one transient failure.
use datamaster.Prelude.{◌≡◌, refl, Bool, true, Option, some, List, [], ◌∷◌, inl}
use datamaster.Protection.Version.{one}
use datamaster.Mongo.BulkWrite
use datamaster.Mongo.BulkWrite.{Driver, bulk_write_with_retry}
use datamaster.Mongo.Shallow.{leaf, Fields, end, field}
use datamaster.Mongo.Upsert
use datamaster.Mongo.Upsert.{
  Entry, UpsertType, insert, UpdateOne, End, returned, protect_entries, upsert_many_by_id,
}
use datamaster.Mongo.Upsert.Written.{IsUpserted, upsert_many_by_id-IsUpserted}
use datamaster.Tests.Mongo.{driver}

unfoldable pub no_updates : Driver.Store (driver UpdateOne)
unfolding driver
no_updates = []

unfoldable pub update_one :
    UpdateOne → Driver.Store (driver UpdateOne) → Driver.Store (driver UpdateOne) × Bool
unfolding driver
update_one op s = (op ∷ s, true)

pub update_one-IsApplied :
    (op : UpdateOne) (s : Driver.Store (driver UpdateOne))
    → (update_one op s).1 ≡ true
    → Driver.IsApplied (driver UpdateOne) op (update_one op s).0
unfolding driver update_one
update_one-IsApplied op s e = inl refl

abbrev starred : Fields → Option Fields
starred end = some end
starred (field name v fields) = some (field name (leaf (one "*")) fields)

abbrev users : List Entry
users =
    record { id = "a"; obj = field "name" (leaf (one "ada")) end }
    ∷ record { id = "b"; obj = field "name" (leaf (one "bob")) end }
    ∷ []

abbrev result : Driver.Store (driver UpdateOne) × End
result = upsert_many_by_id (driver UpdateOne) update_one starred true insert users no_updates

returns : result.1 ≡ returned
unfolding upsert_many_by_id Upsert.with_data_policy Upsert.plain_upsert_many_by_id protect_entries
    Upsert.updates_of Upsert.update_of bulk_write_with_retry BulkWrite.retry BulkWrite.select driver
    no_updates
returns = refl

upsert_many_by_id-IsUpserted_example :
    IsUpserted
      (driver UpdateOne)
      update_one
      update_one-IsApplied
      starred
      true
      insert
      users
      no_updates
      result
upsert_many_by_id-IsUpserted_example =
    upsert_many_by_id-IsUpserted (driver UpdateOne) update_one update_one-IsApplied starred true
      insert users no_updates
