-- ===== src/Mongo/Upsert.antt =====
-- processor/schema/statics/upsert.ts: `upsertById` and `upsertManyById`, with the listeners of
-- middlewares/data-protection.ts that they hand their data to.
pub mod Written
use datamaster.Prelude.{
  Bool, true, false, Option, none, some, List, [], ◌∷◌, String, String_discrete, holds,
  if◌then◌else◌,
}
use datamaster.Protection.Version.{one}
use datamaster.Mongo.BulkWrite.{Driver, Outcome, done, thrown, bulk_write_with_retry}
use datamaster.Mongo.Shallow.{leaf, Fields, end, field}

-- `const { id: _id, ...obj } = data`. No protected path of a model names the id.
pub record Entry : Type 0 where
  pub id : String
  pub obj : Fields

pub data UpsertType : Type 0 where
  insert update : UpsertType

-- A call or an operation `updateOne`: its filter, its payload and `upsert`.
pub record UpdateOne : Type 0 where
  pub filter_id : String
  pub set_on_insert : Option Fields
  pub set : Option Fields
  pub upsert : Bool

-- `{ ...obj, _id }`
unfoldable pub with_id : String → Fields → Fields
with_id id end = field "_id" (leaf (one id)) end
with_id id (field name v fields) =
    let rest = with_id id fields in
    if holds (String_discrete name "_id")
    then field name (leaf (one id)) fields
    else field name v rest

unfoldable pub update_of : UpsertType → Entry → UpdateOne
unfolding with_id
update_of insert data_entry = record {
  filter_id = data_entry.id;
  set_on_insert = some (with_id data_entry.id data_entry.obj);
  set = none;
  upsert = true;
}
update_of update data_entry = record {
  filter_id = data_entry.id;
  set_on_insert = none;
  set = some data_entry.obj;
  upsert = false;
}

unfoldable pub updates_of : UpsertType → List Entry → List UpdateOne
unfolding update_of
updates_of type [] = []
updates_of type (e ∷ entries) = update_of type e ∷ updates_of type entries

-- How the promise of a call ends; `never` if nothing settles it.
pub data End : Type 0 where
  returned rejected never : End

abbrev pub end_of_update : Bool → End
end_of_update true = returned
end_of_update false = rejected

abbrev pub end_of_bulk : Outcome UpdateOne → End
end_of_bulk done = returned
end_of_bulk (thrown ops) = rejected

-- The listener calls `next` after a write that returned, and nothing else settles the promise.
abbrev pub end_of_listener : End → End
end_of_listener returned = returned
end_of_listener rejected = never
end_of_listener never = never

-- `update_one` tells whether the call returned; `protect` is the transform of the model's paths, with
-- `none` for an error.
module _ (d : Driver UpdateOne) (update_one : UpdateOne → d.Store → d.Store × Bool)
    (protect : Fields → Option Fields) where
  -- Without data policies.
  unfoldable pub plain_upsert_by_id : UpsertType → Entry → d.Store → d.Store × End
  unfolding update_of
  plain_upsert_by_id type e s = let r = update_one (update_of type e) s in (r.0, end_of_update r.1)

  unfoldable pub plain_upsert_many_by_id : UpsertType → List Entry → d.Store → d.Store × End
  unfolding plain_upsert_by_id updates_of bulk_write_with_retry
  plain_upsert_many_by_id type [] s = (s, returned)
  plain_upsert_many_by_id type (e ∷ []) s = plain_upsert_by_id type e s
  plain_upsert_many_by_id type (e ∷ next ∷ entries) s =
      let r = bulk_write_with_retry d (updates_of type (e ∷ next ∷ entries)) s in
      (r.0, end_of_bulk r.1)

  abbrev pub entry_with : Entry → Option Fields → Option Entry
  entry_with e none = none
  entry_with e (some obj) = some (record e { obj = obj })

  abbrev pub cons_entry : Option Entry → Option (List Entry) → Option (List Entry)
  cons_entry none rest = none
  cons_entry (some e) none = none
  cons_entry (some e) (some entries) = some (e ∷ entries)

  unfoldable pub protect_entries : List Entry → Option (List Entry)
  protect_entries [] = some []
  protect_entries (e ∷ entries) =
      cons_entry (entry_with e (protect e.obj)) (protect_entries entries)

  abbrev pub then_listener :
      Option (List Entry) → (List Entry → d.Store × End) → d.Store → d.Store × End
  then_listener none write s = (s, never)
  then_listener (some entries) write s = let r = write entries in (r.0, end_of_listener r.1)

  -- `upsertWithDataPolicy` and `upsertManyWithDataPolicy`
  unfoldable pub with_data_policy : UpsertType → List Entry → d.Store → d.Store × End
  unfolding protect_entries plain_upsert_many_by_id
  with_data_policy type entries s =
      then_listener (protect_entries entries) (λ given. plain_upsert_many_by_id type given s) s

  -- The flag is `useDataPolicies && this._hasDataProtection()`.
  unfoldable pub upsert_by_id : Bool → UpsertType → Entry → d.Store → d.Store × End
  unfolding with_data_policy plain_upsert_by_id
  upsert_by_id true type e s = with_data_policy type (e ∷ []) s
  upsert_by_id false type e s = plain_upsert_by_id type e s

  unfoldable pub upsert_many_by_id : Bool → UpsertType → List Entry → d.Store → d.Store × End
  unfolding upsert_by_id with_data_policy plain_upsert_many_by_id
  upsert_many_by_id policies type [] s = (s, returned)
  upsert_many_by_id policies type (e ∷ []) s = upsert_by_id policies type e s
  upsert_many_by_id true type (e ∷ next ∷ entries) s = with_data_policy type (e ∷ next ∷ entries) s
  upsert_many_by_id false type (e ∷ next ∷ entries) s =
      plain_upsert_many_by_id type (e ∷ next ∷ entries) s
