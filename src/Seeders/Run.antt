-- ===== src/Seeders/Run.antt =====
-- utils/seeders/wrapper.ts and adaptation.ts: a seeder around its handler. A handler is a function of
-- what it changes, `W`, and tells whether it failed and how long it took.
pub mod Rerun
use datamaster.Prelude.{
  ℕ, Bool, true, false, not, ◌&&◌, Option, none, some, List, [], ◌∷◌, String, String_discrete, ite,
  if◌then◌else◌,
}
use datamaster.Seeders.{Status, Container, Connector, prepare, avoid_run, on_finish}

pub data RunningMode : Type 0 where
  always if_version_changed : RunningMode

pub record Options : Type 0 where
  pub name : String
  pub version : String
  pub running_mode : RunningMode

module _ (W : Type 0) where
  -- A function with its name, which is empty for an anonymous one.
  pub record Handler : Type 0 where
    pub name : String
    pub call : W → W × (Status × ℕ)

  pub data SeederHandler : Type 0 where
    plain : Handler → SeederHandler
    configured : Handler → Option String → Option String → Option RunningMode → SeederHandler

  pub record Seeder : Type 0 where
    pub options : Options
    pub handler : Handler

-- `runningMode !== 'always' && avoidRun(version, name, Model)`
abbrev pub skips_in : RunningMode → Bool → Bool
skips_in always known = false
skips_in if_version_changed known = known

abbrev pub default_to : {A : Type 0} → A → Option A → A
default_to a none = a
default_to a (some b) = b

module _ {W : Type 0} (connector : Connector) where
  -- `seederBaseWrapper`: without a name it throws.
  unfoldable pub seeder_base_wrapper : Handler W → Options → Option (Seeder W)
  seeder_base_wrapper handler options =
      ite (String_discrete options.name "") none
        (some (record { options = options; handler = handler }))

  unfoldable pub skips : Seeder W → String → Container → Bool
  unfolding avoid_run
  skips s model_name c =
      skips_in s.options.running_mode
        (avoid_run connector s.options.version s.options.name model_name c)

  abbrev pub finish : Seeder W → String → Container → W × (Status × ℕ) → W × Container
  finish s model_name c (w, (status, duration)) =
      (w, on_finish connector status s.options.name s.options.version duration model_name c)

  -- The function that `seederBaseWrapper` returns.
  unfoldable pub run_seeder : Seeder W → String → W × Container → W × Container
  unfolding skips
  run_seeder s model_name (w, c) =
      if skips s model_name c then (w, c) else finish s model_name c (s.handler.call w)

  -- The options of a seeder, with the defaults of both files.
  abbrev pub options_of : SeederHandler W → Options
  options_of (plain f) = record {
    name = f.name;
    version = "0.0.0";
    running_mode = if_version_changed;
  }
  options_of (configured f name version mode) = record {
    name = default_to f.name name;
    version = default_to "0.0.0" version;
    running_mode = default_to if_version_changed mode;
  }

  abbrev pub handler_of : SeederHandler W → Handler W
  handler_of (plain f) = f
  handler_of (configured f name version mode) = f

  abbrev pub cons_seeder :
      Option (Seeder W)
      → Option (List (Seeder W)) × Container
      → Container
      → Option (List (Seeder W)) × Container
  cons_seeder none rest prepared = (none, prepared)
  cons_seeder (some s) (none, c) prepared = (none, c)
  cons_seeder (some s) (some seeders, c) prepared = (some (s ∷ seeders), c)

  -- `seederAdaptation`, for a model; a seeder is prepared before its name is checked.
  unfoldable pub seeder_adaptation :
      List (SeederHandler W) → String → Container → Option (List (Seeder W)) × Container
  unfolding prepare seeder_base_wrapper
  seeder_adaptation [] model_name c = (some [], c)
  seeder_adaptation (seed ∷ seeds) model_name c =
      let options = options_of seed in
      let prepared = prepare connector options.version options.name model_name c in
      let rest = seeder_adaptation seeds model_name prepared in
      cons_seeder (seeder_base_wrapper (handler_of seed) options) rest prepared
