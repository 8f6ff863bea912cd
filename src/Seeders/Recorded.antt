-- ===== src/Seeders/Recorded.antt =====
-- processor.ts: the records that wait to be saved.
use datamaster.Prelude.{
  ℕ, ◌≡◌, refl, sym, ap, ◌∙◌, none, some, List, [], ◌∷◌, String, String_discrete, ite, if_pos, ◌⊎◌,
  inl, inr,
}
use mathlib.Core.List
use mathlib.Core.Path.{subst}
use datamaster.JsMap
use datamaster.JsMap.Laws.{get-set}
use datamaster.Seeders.{
  Status, success, Track, Container, Connector, Buckets, bucket, or_empty, get_name,
  get_db_and_model, database_or_default, add_data_to_query, signed, on_finish,
}

-- A record with this status, name and version is in the list.
abbrev pub Recorded : Status → String → String → List Track → Type 0
Recorded status name version [] = ⊥
Recorded status name version (t ∷ ts) =
    ((t.status ≡ status) × ((t.name ≡ name) × (t.version ≡ version)))
    ⊎ Recorded status name version ts

abbrev pub AllSucceeded : List Track → Type 0
AllSucceeded [] = Unit
AllSucceeded (t ∷ ts) = (t.status ≡ success) × AllSucceeded ts

append-Recorded :
    (status : Status) (name version : String) (t : Track) (ts : List Track)
    → (t.status ≡ status) × ((t.name ≡ name) × (t.version ≡ version))
    → Recorded status name version (List.◌++◌ ts (t ∷ []))
append-Recorded status name version t [] h = inl h
append-Recorded status name version t (u ∷ ts) h = inr (append-Recorded status name version t ts h)

append-Recorded_kept :
    (status : Status) (name version : String) (ts us : List Track)
    → Recorded status name version ts
    → Recorded status name version (List.◌++◌ ts us)
append-Recorded_kept status name version [] us never = elim never [ ]
append-Recorded_kept status name version (t ∷ ts) us (inl here) = inl here
append-Recorded_kept status name version (t ∷ ts) us (inr there) =
    inr (append-Recorded_kept status name version ts us there)

pub AllSucceeded-Recorded :
    (status : Status) (name version : String) (ts : List Track)
    → AllSucceeded ts
    → Recorded status name version ts
    → Recorded success name version ts
AllSucceeded-Recorded status name version [] h never = elim never [ ]
AllSucceeded-Recorded status name version (t ∷ ts) h (inl here) = inl (h.0, here.1)
AllSucceeded-Recorded status name version (t ∷ ts) h (inr there) =
    inr (AllSucceeded-Recorded status name version ts h.1 there)

bucket-set :
    (database : String) (ts : List Track) (buckets : Buckets)
    → bucket database (JsMap.set String_discrete database ts buckets) ≡ ts
unfolding bucket
bucket-set database ts buckets =
    ap or_empty (get-set String_discrete database database ts buckets)
    ∙ ap or_empty (
        if_pos (String_discrete database database) refl (some ts)
          (JsMap.get String_discrete database buckets))

-- A record stays of its name and version when it is signed.
signed_same :
    (connector : Connector) (database : String) (t : Track)
    → ((signed connector database t).status ≡ t.status)
      × (((signed connector database t).name ≡ t.name)
          × ((signed connector database t).version ≡ t.version))
signed_same connector database t =
    let by_program : Track = record t { executed_by = some connector.program } in
    elim (String_discrete database "default")
      as (λ d.
        ((ite d t by_program).status ≡ t.status)
        × (((ite d t by_program).name ≡ t.name) × ((ite d t by_program).version ≡ t.version))) [
          | yes p ↦ (refl, (refl, refl))
          | no p ↦ (refl, (refl, refl))
        ]

-- The database and the name of a seeder's records.
abbrev pub database_of : String → String
unfolding get_db_and_model
database_of model_name = database_or_default (get_db_and_model model_name).0

abbrev pub tracked_name : String → String → String
unfolding get_db_and_model get_name
tracked_name model_name name = get_name (get_db_and_model model_name).1 name

module _ (connector : Connector) (model_name : String) where
  on_finish-bucket :
      (status : Status) (name version : String) (duration : ℕ) (c : Container)
      → bucket
          (database_of model_name)
          (on_finish connector status name version duration model_name c).to_save
        ≡ List.◌++◌ (bucket (database_of model_name) c.to_save) (
            signed connector (database_of model_name) (record {
              name = tracked_name model_name name;
              status = status;
              version = version;
              duration = some duration;
              executed_by = none;
            })
            ∷ [])
  unfolding on_finish add_data_to_query
  on_finish-bucket status name version duration c = bucket-set (database_of model_name) _ c.to_save

  pub on_finish-Recorded :
      (status : Status) (name version : String) (duration : ℕ) (c : Container)
      → Recorded status (tracked_name model_name name) version (
          bucket
            (database_of model_name)
            (on_finish connector status name version duration model_name c).to_save)
  on_finish-Recorded status name version duration c =
      subst (Recorded status (tracked_name model_name name) version)
        (sym (on_finish-bucket status name version duration c))
        (append-Recorded status (tracked_name model_name name) version _
          (bucket (database_of model_name) c.to_save)
          (signed_same connector (database_of model_name) _))

  pub on_finish-Recorded_kept :
      (status : Status) (name version : String) (duration : ℕ) (c : Container)
      → (status' : Status) (name' version' : String)
      → Recorded status' name' version' (bucket (database_of model_name) c.to_save)
      → Recorded status' name' version' (
          bucket
            (database_of model_name)
            (on_finish connector status name version duration model_name c).to_save)
  on_finish-Recorded_kept status name version duration c status' name' version' h =
      subst (Recorded status' name' version')
        (sym (on_finish-bucket status name version duration c))
        (append-Recorded_kept status' name' version' (bucket (database_of model_name) c.to_save) _
          h)

  pub on_finish-exist_in_db :
      (status : Status) (name version : String) (duration : ℕ) (c : Container)
      → (on_finish connector status name version duration model_name c).exist_in_db ≡ c.exist_in_db
  unfolding on_finish add_data_to_query
  on_finish-exist_in_db status name version duration c = refl
