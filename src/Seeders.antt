-- ===== src/Seeders.antt =====
-- modules/database/utils/seeders and modules/program/metadata/seeders.ts: the seeders of a connector
-- and the container of their records. One connector's part of the container is modelled.
pub mod Run
pub mod Rotation
pub mod Rotate
pub mod Recorded
use Prim.Native.String.{◌++◌}
use datamaster.Prelude.{
  ℕ, ◌-◌, Bool, true, false, not, ◌&&◌, Option, none, some, List, [], ◌∷◌, String, String_discrete,
  ite, holds, if◌then◌else◌,
}
use mathlib.Core.List
use datamaster.JsMap
use datamaster.Protection.Version.{split_version}

pub data Status : Type 0 where
  success failed : Status

-- A record of the tracking model.
pub record Track : Type 0 where
  pub name : String
  pub status : Status
  pub version : String
  pub duration : Option ℕ
  pub executed_by : Option String

abbrev pub Buckets : Type 0
Buckets = List (String × List Track)

pub record Container : Type 0 where
  pub exist_in_db : List String
  pub to_find : Buckets
  pub to_save : Buckets

pub data Action : Type 0 where
  save find : Action

abbrev pub no_data : Container → Action → Container
no_data c save = record c { to_save = [] }
no_data c find = record c { to_find = [] }

abbrev pub data_of : Container → Action → Buckets
data_of c save = c.to_save
data_of c find = c.to_find

abbrev pub set_data : Container → Action → Buckets → Container
set_data c save buckets = record c { to_save = buckets }
set_data c find buckets = record c { to_find = buckets }

-- `consumeDataToQuery`
abbrev pub consume_data_to_query : Action → Container → Buckets × Container
consume_data_to_query action c = (data_of c action, no_data c action)

abbrev pub or_empty : Option (List Track) → List Track
or_empty none = []
or_empty (some tracks) = tracks

-- `seeders[database] || []`
unfoldable pub bucket : String → Buckets → List Track
unfolding JsMap.get
bucket database buckets = or_empty (JsMap.get String_discrete database buckets)

-- What `getDbAndModel` makes of the parts of a name: the database, if there is one, and the model.
abbrev pub db_or_model : String → String → Option String × String
db_or_model model_or_db model =
    ite (String_discrete model "") (none, model_or_db) (some model_or_db, model)

-- A part of `split(':')` up to the next colon.
unfoldable pub before_colon : String → String
before_colon text = elim (split_version text) [ none ↦ text | some (part, rest) ↦ part ]

unfoldable pub get_db_and_model : String → Option String × String
get_db_and_model model = elim (split_version model) [
  | none ↦ (none, model)
  | some (model_or_db, rest) ↦ db_or_model model_or_db (before_colon rest)
]

unfoldable pub get_name : String → String → String
get_name model_name seeder_name = model_name ++ (":" ++ seeder_name)

unfoldable pub has : String → List String → Bool
has key [] = false
has key (k ∷ keys) = if holds (String_discrete k key) then true else has key keys

-- `readConfig().name` and the key of the connector.
pub record Connector : Type 0 where
  pub program : String
  pub key : String

-- `executedBy`, in a database of another name than the default one.
abbrev pub signed : Connector → String → Track → Track
signed connector database track =
    ite (String_discrete database "default") track
      (record track { executed_by = some connector.program })

abbrev pub database_or_default : Option String → String
database_or_default none = "default"
database_or_default (some database) = database

unfoldable pub add_data_to_query :
    Connector → Track → Action → Option String → Container → Container
unfolding bucket JsMap.set
add_data_to_query connector track action database c =
    let (seeders, rest) = consume_data_to_query action c in
    let name = database_or_default database in
    set_data rest action (
      JsMap.set String_discrete name
        (List.◌++◌ (bucket name seeders) (signed connector name track ∷ [])) seeders)

-- `prepare`, `avoidRun` and `onFinish` of `seederProcessor`, for a model's name.
unfoldable pub prepare : Connector → String → String → String → Container → Container
unfolding add_data_to_query get_db_and_model get_name
prepare connector version name model_name c =
    let (database, model) = get_db_and_model model_name in
    add_data_to_query connector
      (record {
        name = get_name model name;
        status = success;
        version = version;
        duration = none;
        executed_by = none;
      })
      find database c

-- The text that stands in `existInDB` for a record.
unfoldable pub record_key : Connector → String → String → String
record_key connector name version = connector.key ++ (":" ++ (name ++ ("@" ++ version)))

unfoldable pub avoid_run : Connector → String → String → String → Container → Bool
unfolding get_db_and_model get_name record_key has
avoid_run connector version name model_name c =
    let (database, model) = get_db_and_model model_name in
    has (record_key connector (get_name model name) version) c.exist_in_db

unfoldable pub on_finish : Connector → Status → String → String → ℕ → String → Container → Container
unfolding add_data_to_query get_db_and_model get_name
on_finish connector status name version duration model_name c =
    let (database, model) = get_db_and_model model_name in
    add_data_to_query connector
      (record {
        name = get_name model name;
        status = status;
        version = version;
        duration = some duration;
        executed_by = none;
      })
      save database c
