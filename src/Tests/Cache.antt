-- ===== src/Tests/Cache.antt =====
-- `ZanixQLRUConnector` and `RedisPipelineScheduler` on small inputs.
use datamaster.Prelude.{
  ℕ, ◌≡◌, ◌⊎◌, refl, true, false, Option, none, some, List, [], ◌∷◌, ◌++◌, length, ℕ_discrete,
  arith,
}
use datamaster.JsMap
use datamaster.Cache.Qlru
use datamaster.Cache.Qlru.{
  Qlru, Entry, SetOptions, keep_ttl, seconds, ok, create, get, has, set, size, keys, values, evict,
  new_entry,
}
use datamaster.Cache.Qlru.Calls.{Call, run}
use datamaster.Cache.Qlru.Invariant.{IsValid, create-run-IsValid}
use datamaster.Cache.Qlru.Reads.{set-entries}
use datamaster.Cache.Scheduler
use datamaster.Cache.Scheduler.{Scheduler, added, flushed, timed_out, ended, settle, exec, add_set}
use datamaster.Cache.Scheduler.Delivery.{
  commands, batches, joined, deliveries, add_sets, create-run-sent, settle-add_sets-exec,
}

-- `getTTLWithOffset` without an offset.
abbrev no_offset : ℕ → Option ℕ → Option ℕ → ℕ
no_offset s _ _ = s

abbrev plain : SetOptions
plain = record { exp = none; schedule = false; max_ttl_offset = none; min_ttl_for_offset = none }

abbrev for_seconds : ℕ → SetOptions
for_seconds s = record plain { exp = some (seconds s) }

abbrev keeping : SetOptions
keeping = record plain { exp = some keep_ttl }

abbrev empty : Qlru ℕ ℕ
empty = record { cache = []; capacity = 2; ttl = 0; timers = [] }

create_two : create none (some 2) 0 ≡ ok empty
unfolding create
create_two = refl

-- Two entries: 1, which expires at 1500, and 2, which has no TTL.
abbrev two : Qlru ℕ ℕ
two = record empty {
  cache =
      (1, record { value = 10; expiration_time = 1500; ttl = 1000 })
      ∷ (2, record { value = 20; expiration_time = 0; ttl = 0 })
      ∷ [];
}

two-IsValid : IsValid two
two-IsValid = ground arith

writes :
    run ℕ_discrete no_offset
      ((500, Call.set 1 10 (for_seconds 1)) ∷ (600, Call.set 2 20 plain) ∷ [])
      empty
    ≡ two
unfolding run Qlru.Calls.step set Qlru.set_now new_entry Qlru.reorder Qlru.shrink JsMap.get
    JsMap.set JsMap.delete ℕ_discrete
writes = refl

create-run-IsValid_example : IsValid (
    run ℕ_discrete no_offset
      ((500, Call.set 1 10 (for_seconds 1)) ∷ (600, Call.set 2 20 plain) ∷ [])
      empty)
create-run-IsValid_example =
    create-run-IsValid ℕ_discrete no_offset none (some 2) 0 empty
      ((500, Call.set 1 10 (for_seconds 1)) ∷ (600, Call.set 2 20 plain) ∷ []) create_two

-- A third key evicts the first.
set-entries_example :
    (JsMap.get ℕ_discrete 3 (set ℕ_discrete no_offset 700 3 30 plain two).cache
      ≡ some (new_entry ℕ_discrete no_offset 700 3 30 plain two))
    × (((JsMap.get ℕ_discrete 1 (set ℕ_discrete no_offset 700 3 30 plain two).cache
            ≡ JsMap.get ℕ_discrete 1 two.cache)
          × (¬ (
              (JsMap.get ℕ_discrete 3 two.cache ≡ none)
              × (length two.cache ≡ two.capacity)
              × (JsMap.first_key two.cache ≡ some 1))))
        ⊎ (((JsMap.get ℕ_discrete 3 two.cache ≡ none)
              × (length two.cache ≡ two.capacity)
              × (JsMap.first_key two.cache ≡ some 1))
            × (JsMap.get ℕ_discrete 1 (set ℕ_discrete no_offset 700 3 30 plain two).cache ≡ none)))
set-entries_example =
    set-entries ℕ_discrete no_offset 700 3 1 30 plain two two-IsValid refl (λ e. omega arith)

found_one :
    JsMap.get ℕ_discrete 1 two.cache
    ≡ some (record { value = 10; expiration_time = 1500; ttl = 1000 })
unfolding JsMap.get ℕ_discrete
found_one = refl

abbrev trace : List (Scheduler.Event ℕ)
trace = added 7 ∷ added 8 ∷ ended 1 ∷ added 9 ∷ flushed ∷ ended 0 ∷ added 4 ∷ []

create-run-sent_example :
    (joined (batches trace (Scheduler.create (some 2) none))
        ++ (Scheduler.run trace (Scheduler.create (some 2) none)).pipeline
      ≡ commands trace)
    × ((Scheduler.run trace (Scheduler.create (some 2) none)).sent
        ≡ deliveries (batches trace (Scheduler.create (some 2) none)))
    × Scheduler.Delivery.IsValid (Scheduler.run trace (Scheduler.create (some 2) none))
create-run-sent_example = create-run-sent (some 2) none trace

abbrev busy : Scheduler ℕ
busy = record {
  max_batch = 2;
  max_delay = 100;
  pipeline = 7 ∷ 8 ∷ [];
  counter = 2;
  timer = some 100;
  flushing = true;
  sent = [];
}

settle-add_sets-exec_example : settle (add_sets (9 ∷ []) (exec busy)) ≡ settle (exec busy)
settle-add_sets-exec_example = settle-add_sets-exec (9 ∷ []) busy refl

-- The command 9 is neither sent nor queued.
lost_command :
    ((settle (add_sets (9 ∷ []) (exec busy))).sent ≡ 7 ∷ 8 ∷ [])
    × ((settle (add_sets (9 ∷ []) (exec busy))).pipeline ≡ [])
unfolding settle add_sets exec add_set Scheduler.flush
lost_command = (refl, refl)
