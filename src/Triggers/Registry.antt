-- ===== src/Triggers/Registry.antt =====
-- processor/triggers/registry.ts: the two layers of triggers, kept per connector and model. The
-- module's stores are one record, which the functions pass on.
pub mod Layers
pub mod Merge
pub mod Refresh
use datamaster.Prelude.{
  Bool, true, false, Option, none, some, List, [], ◌∷◌, ◌++◌, String, String_discrete, ite,
  if◌then◌else◌, is_some,
}
use mathlib.Core.Option
use datamaster.JsMap

-- `Triggers`: the actions `A` by timing and event.
pub record Events (A : Type 0) : Type 0 where
  pub created : Option (List A)
  pub updated : Option (List A)
  pub deleted : Option (List A)

pub record Triggers (A : Type 0) : Type 0 where
  pub pre : Option (Events A)
  pub post : Option (Events A)

-- `actions.length ? actions : undefined`
abbrev pub when_any : {A : Type 0} → List A → Option (List A)
when_any [] = none
when_any (a ∷ l) = some (a ∷ l)

abbrev pub no_events : {A : Type 0} → Events A
no_events = record { created = none; updated = none; deleted = none }

-- The inner loop of `mergeTriggers`, for a timing that a side has.
abbrev pub merge_events : {A : Type 0} → Events A → Events A → Events A
merge_events base extra = record {
  created = when_any (Option.get_or base.created [] ++ Option.get_or extra.created []);
  updated = when_any (Option.get_or base.updated [] ++ Option.get_or extra.updated []);
  deleted = when_any (Option.get_or base.deleted [] ++ Option.get_or extra.deleted []);
}

-- The body of the loop over the timings.
abbrev pub merge_timing : {A : Type 0} → Option (Events A) → Option (Events A) → Option (Events A)
merge_timing none none = none
merge_timing none (some extra) = some (merge_events no_events extra)
merge_timing (some base) none = some (merge_events base no_events)
merge_timing (some base) (some extra) = some (merge_events base extra)

unfoldable pub merge_triggers : {A : Type 0} → Triggers A → Triggers A → Triggers A
merge_triggers base extra = record {
  pre = merge_timing base.pre extra.pre;
  post = merge_timing base.post extra.post;
}

-- A store by connector, then by model.
abbrev pub Nested : Type 0 → Type 0
Nested V = List (String × List (String × V))

pub record Registry (A : Type 0) : Type 0 where
  pub static_store : Nested (Triggers A)
  pub persisted_store : Nested (Triggers A)
  pub default_suppressed : Nested (Unit {0})

-- `store.get(connectorKey) ?? new Map()`
abbrev pub bucket : {V : Type 0} → String → Nested V → List (String × V)
bucket c s = Option.get_or (JsMap.get String_discrete c s) []

-- A write to the map of a connector, which is created on first use.
unfoldable pub set_nested : {V : Type 0} → String → String → V → Nested V → Nested V
set_nested c m v s = JsMap.set String_discrete c (JsMap.set String_discrete m v (bucket c s)) s

-- `store.get(connectorKey)?.delete(modelName)`
unfoldable pub delete_nested : {V : Type 0} → String → String → Nested V → Nested V
delete_nested c m s = elim (JsMap.get String_discrete c s) [
  | none ↦ s
  | some models ↦ JsMap.set String_discrete c (JsMap.delete String_discrete m models) s
]

unfoldable pub get_nested : {V : Type 0} → String → String → Nested V → Option V
get_nested c m s = JsMap.get String_discrete m (bucket c s)

-- `TriggersModelAttrs`, the fields that the registry reads.
pub record Persisted (A : Type 0) : Type 0 where
  pub model : String
  pub active : Bool
  pub is_default : Bool
  pub triggers : Triggers A

module _ {A : Type 0} where
  unfoldable pub set_static_triggers :
      String → String → Option (Triggers A) → Registry A → Registry A
  set_static_triggers c m none r = record r { static_store = delete_nested c m r.static_store }
  set_static_triggers c m (some triggers) r = record r {
    static_store = set_nested c m triggers r.static_store;
  }

  unfoldable pub get_static_trigger_entries : String → Registry A → List (String × Triggers A)
  get_static_trigger_entries c r = bucket c r.static_store

  unfoldable pub set_persisted_triggers : String → String → Triggers A → Registry A → Registry A
  set_persisted_triggers c m triggers r = record r {
    persisted_store = set_nested c m triggers r.persisted_store;
  }

  unfoldable pub set_default_suppressed : String → String → Registry A → Registry A
  set_default_suppressed c m r = record r {
    default_suppressed = set_nested c m tt r.default_suppressed;
  }

  unfoldable pub reset_persisted_triggers : String → Registry A → Registry A
  reset_persisted_triggers c r = record r {
    persisted_store = JsMap.delete String_discrete c r.persisted_store;
    default_suppressed = JsMap.delete String_discrete c r.default_suppressed;
  }

  -- The merge of the two layers of a model.
  abbrev pub layered : Option (Triggers A) → Option (Triggers A) → Option (Triggers A)
  layered none persisted = persisted
  layered (some static) none = some static
  layered (some static) (some persisted) = some (merge_triggers static persisted)

  unfoldable pub get_triggers : String → String → Registry A → Option (Triggers A)
  get_triggers c m r =
      let persisted = get_nested c m r.persisted_store in
      if is_some (get_nested c m r.default_suppressed)
      then persisted
      else layered (get_nested c m r.static_store) persisted

  -- The body of the loop of `refreshPersistedTriggers`.
  unfoldable pub load : String → Persisted A → Registry A → Registry A
  load c entry r =
      let r' = if entry.active then set_persisted_triggers c entry.model entry.triggers r else r in
      if entry.is_default then set_default_suppressed c entry.model r' else r'

  unfoldable pub load_all : String → List (Persisted A) → Registry A → Registry A
  load_all c [] r = r
  load_all c (entry ∷ entries) r = load_all c entries (load c entry r)

  -- The entries are what `Model.find({}).lean()` returns.
  unfoldable pub refresh_persisted_triggers : String → List (Persisted A) → Registry A → Registry A
  refresh_persisted_triggers c entries r = load_all c entries (reset_persisted_triggers c r)
