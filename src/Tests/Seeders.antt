-- ===== src/Tests/Seeders.antt =====
-- Seeders of a model over two starts.
use datamaster.Prelude.{
  arith, ℕ, ◌+◌, ◌≡◌, refl, true, none, [], ◌∷◌, String, String_discrete, sym, inl, inr,
}
use datamaster.JsMap
use datamaster.Protection.Version.{split_version}
use datamaster.Seeders.{
  success, failed, Container, Connector, bucket, has, get_name, get_db_and_model, before_colon,
  add_data_to_query, record_key, avoid_run, on_finish,
}
use datamaster.Seeders.Recorded.{Recorded, AllSucceeded, database_of}
use datamaster.Seeders.Run.{
  Handler, plain, if_version_changed, Seeder, seeder_adaptation, seeder_base_wrapper, skips,
  run_seeder,
}
use datamaster.Seeders.Run.Rerun.{in_order, Remembers, in_order_rerun}

abbrev main_db : Connector
main_db = record { program = "shop"; key = "main" }

abbrev add_one : Handler ℕ
add_one = record { name = "add_one"; call = λ n. (n + 1, (success, 3)) }

abbrev add_ten : Seeder ℕ
add_ten = record {
  options = record { name = "ten"; version = "1.2.0"; running_mode = if_version_changed };
  handler = record { name = "add_ten"; call = λ n. (n + 10, (success, 4)) };
}

abbrev one_seeder : Seeder ℕ
one_seeder = record {
  options = record { name = "add_one"; version = "0.0.0"; running_mode = if_version_changed };
  handler = add_one;
}

abbrev fresh : Container
fresh = record { exist_in_db = []; to_find = []; to_save = [] }

abbrev restarted : Container
restarted = record {
  exist_in_db = "main:users:add_one@0.0.0" ∷ "main:users:ten@1.2.0" ∷ [];
  to_find = [];
  to_save = [];
}

both_run : (in_order main_db "crm:users" (one_seeder ∷ add_ten ∷ []) (0, fresh)).0 ≡ 11
unfolding run_seeder skips avoid_run on_finish add_data_to_query get_db_and_model get_name
    record_key has bucket before_colon split_version JsMap.get JsMap.set String_discrete
both_run = refl

unnamed_throws :
    (seeder_adaptation main_db
      (plain (record { name = ""; call = λ n. (n, (failed, 0)) }) ∷ plain add_one ∷ [])
      "users"
      fresh).0
    ≡ none
unfolding seeder_adaptation seeder_base_wrapper String_discrete
unnamed_throws = refl

abbrev first_start : Container
first_start = (in_order main_db "users" (one_seeder ∷ add_ten ∷ []) (0, fresh)).1

first_start-AllSucceeded : AllSucceeded (bucket (database_of "users") first_start.to_save)
unfolding run_seeder skips avoid_run on_finish add_data_to_query get_db_and_model get_name
    record_key has bucket before_colon split_version JsMap.get JsMap.set String_discrete
first_start-AllSucceeded = (refl, (refl, tt))

first_start-saved :
    (name version : String)
    → Recorded success name version (bucket (database_of "users") first_start.to_save)
    → has (record_key main_db name version) restarted.exist_in_db ≡ true
unfolding run_seeder skips avoid_run on_finish add_data_to_query get_db_and_model get_name
    record_key has bucket before_colon split_version JsMap.get JsMap.set String_discrete
first_start-saved name version (inl (s, (n, v))) = rw (sym n) (rw (sym v) refl)
first_start-saved name version (inr (inl (s, (n, v)))) = rw (sym n) (rw (sym v) refl)
first_start-saved name version (inr (inr never)) = elim never [ ]

fresh-Remembers : Remembers main_db "users" fresh first_start restarted
unfolding has
fresh-Remembers = record {
  succeeded = first_start-AllSucceeded;
  known = λ key h. ground arith;
  saved = first_start-saved;
}

in_order_rerun_example :
    in_order main_db "users" (one_seeder ∷ add_ten ∷ []) (40, restarted) ≡ (40, restarted)
in_order_rerun_example =
    in_order_rerun main_db "users" (one_seeder ∷ add_ten ∷ []) 0 40 fresh restarted
      (refl, (refl, tt)) fresh-Remembers
