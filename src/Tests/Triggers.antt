-- ===== src/Tests/Triggers.antt =====
-- The registry of triggers on small inputs, with numbers as actions.
use datamaster.Prelude.{
  ◌≡◌, ◌≢◌, ◌⊎◌, ◌||◌, ◌++◌, is_some, refl, ℕ, false, true, false, none, some, List, [], ◌∷◌,
  String, text_ne,
}
use datamaster.Triggers.Registry.{
  Triggers, Registry, Persisted, get_triggers, get_nested, refresh_persisted_triggers, no_events,
}
use datamaster.Triggers.Registry.Layers.{
  run_calls, set_static, refresh, reset, get_triggers-run_calls,
}
use datamaster.Triggers.Registry.Refresh.{
  last_active, has_default, actions_in, get_triggers-refresh,
}
use datamaster.Triggers.Registry.Merge.{pre, created}

abbrev on_created : ℕ → Triggers ℕ
on_created n = record { pre = some (record no_events { created = some (n ∷ []) }); post = none }

abbrev empty : Registry ℕ
empty = record { static_store = []; persisted_store = []; default_suppressed = [] }

abbrev entries : List (Persisted ℕ)
entries =
    record { model = "users"; active = true; is_default = false; triggers = on_created 2 }
    ∷ record { model = "users"; active = false; is_default = true; triggers = on_created 3 }
    ∷ []

other : ◌≢◌ {A = String} "mongo" "mongo:b"
other = text_ne "mongo" "mongo:b" refl

get_triggers-run_calls_example :
    get_triggers "mongo:b" "users" (
      run_calls
        (("mongo", set_static "users" (some (on_created 1)))
          ∷ ("mongo", refresh entries)
          ∷ ("mongo", reset)
          ∷ [])
        empty)
    ≡ get_triggers "mongo:b" "users" empty
get_triggers-run_calls_example =
    get_triggers-run_calls "mongo:b" "users"
      (("mongo", set_static "users" (some (on_created 1)))
        ∷ ("mongo", refresh entries)
        ∷ ("mongo", reset)
        ∷ [])
      empty (other, (other, (other, tt)))

abbrev with_static : Registry ℕ
with_static = record empty { static_store = ("mongo", ("users", on_created 1) ∷ []) ∷ [] }

abbrev active_entries : List (Persisted ℕ)
active_entries =
    record { model = "users"; active = true; is_default = false; triggers = on_created 2 } ∷ []

get_triggers-refresh_example :
    ((has_default "users" active_entries ≡ true)
      × (get_triggers "mongo" "users"
            (refresh_persisted_triggers "mongo" active_entries with_static)
          ≡ last_active "users" active_entries))
    ⊎ ((has_default "users" active_entries ≡ false)
        × (is_some (
              get_triggers "mongo" "users"
                (refresh_persisted_triggers "mongo" active_entries with_static))
            ≡ (is_some (get_nested "mongo" "users" with_static.static_store)
                || is_some (last_active "users" active_entries)))
        × (actions_in pre created (
              get_triggers "mongo" "users"
                (refresh_persisted_triggers "mongo" active_entries with_static))
            ≡ actions_in pre created (get_nested "mongo" "users" with_static.static_store)
              ++ actions_in pre created (last_active "users" active_entries)))
get_triggers-refresh_example =
    get_triggers-refresh "mongo" "users" active_entries with_static pre created tt tt
