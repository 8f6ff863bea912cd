-- ===== src/Triggers/Dispatch.antt =====
-- processor/triggers/dispatch.ts: the jobs that a trigger's actions become.
pub mod Bodies
pub mod Sent
use Prim.Native.Char.{code}
use Prim.Native.String.{◌++◌}
use mathlib.Core.Option
use datamaster.Prelude.{
  ℕ, Bool, true, false, not, ◌&&◌, ◌||◌, Option, none, some, List, [], ◌∷◌, String, String_discrete,
  ite, holds, is_some, ◌==◌, if◌then◌else◌,
}
use datamaster.JsMap
use datamaster.Triggers.Conditions.{Values, Doc, Conditions, validate_conditions}

-- The keys of `TriggerActions`; `builtin` is an action kind without a default job.
pub data ActionType : Type 0 where
  mail request custom : ActionType
  builtin : String → ActionType

pub data Priority : Type 0 where
  high medium low : Priority

-- What the module uses of `@zanix/helpers` and of objects. `object_of` is what a spread takes.
pub record Helpers : Type 1 where
  pub Json : Type 0
  pub of_text : String → Json
  pub of_type : ActionType → Json
  pub of_priority : Priority → Json
  pub of_delay : Option ℕ → Json
  pub of_object : List (String × Json) → Json
  pub text_of : Json → Option String
  pub number_of : Json → ℕ
  pub object_of : Json → List (String × Json)
  pub interpolate : List (String × Json) → List (String × Json) → List (String × Json)
  pub interpolate_url : String → List (String × Json) → String
  pub interpolate_env : List (String × Json) → List (String × Json)
  pub to_search_params : Json → String

-- `text.includes('?')`
unfoldable pub has_query : String → Bool
has_query String.[] = false
has_query (String.◌∷◌ c text) = let rest = has_query text in (code c == b'?') || rest

abbrev pub is_bodyless : Option String → Bool
is_bodyless none = false
is_bodyless (some method) =
    holds (String_discrete method "GET")
    || (holds (String_discrete method "HEAD") || holds (String_discrete method "DELETE"))

-- A job that was handed to the worker: to the queue, or to the process with a timeout.
pub data Route : Type 0 where
  queued : Priority → Route
  in_process : ℕ → Route

abbrev pub is_request : ActionType → Bool
is_request request = true
is_request _ = false

module _ (h : Helpers) where
  open h use {
    Json, of_text, of_type, of_priority, of_delay, of_object, text_of, number_of, object_of,
    interpolate, interpolate_url, interpolate_env, to_search_params,
  }

  abbrev pub Object : Type 0
  Object = List (String × Json)

  -- `TriggerActionConfig`: the fields that are split off, and the others.
  pub record Action (N : Type 0) : Type 0 where
    pub conditions : Option (Conditions N)
    pub priority : Option Priority
    pub delay : Option ℕ
    pub fields : Object

  pub record Job : Type 0 where
    pub name : Option String
    pub args : Object
    pub route : Route

  -- `sent` is a call of `runJob` or `runTask`; `failed` an error.
  pub data Dispatched : Type 0 where
    skipped failed : Dispatched
    sent : Job → Dispatched

  -- The record that the trigger fired for, without `_old`, and `_old`.
  pub record Event : Type 0 where
    pub current : Object
    pub old : Option Object

  abbrev pub text_field : String → Object → Option String
  text_field name object = Option.bind (JsMap.get String_discrete name object) text_of

  -- `jobNameFor`, from the table of registered jobs.
  unfoldable pub default_job : ActionType → Option String
  default_job mail = some "zanix:trigger:mail"
  default_job request = some "zanix:trigger:request"
  default_job custom = none
  default_job (builtin name) = none

  -- `none` is the error; a custom action without a name gives undefined, `some none`.
  unfoldable pub job_name_for :
      (ActionType → Option String) → ActionType → Object → Option (Option String)
  unfolding default_job
  job_name_for registered custom fields = some (text_field "name" fields)
  job_name_for registered mail fields = elim (registered mail) [
    | none ↦ some (default_job mail)
    | some name ↦ some (some name)
  ]
  job_name_for registered request fields = elim (registered request) [
    | none ↦ some (default_job request)
    | some name ↦ some (some name)
  ]
  job_name_for registered (builtin kind) fields = elim (registered (builtin kind)) [
    | none ↦ none
    | some name ↦ some (some name)
  ]

  -- `{ ...base, ...fields }`
  unfoldable pub spread : Object → Object → Object
  spread base [] = base
  spread base ((name, value) ∷ fields) = spread (JsMap.set String_discrete name value base) fields

  -- Both passes of interpolation; the URL has its own.
  unfoldable pub with_url : Option String → Object → Object → Object
  with_url none current fields = fields
  with_url (some url) current fields =
      JsMap.set String_discrete "url" (of_text (interpolate_url url current)) fields

  unfoldable pub interpolated : Object → Object → Object
  interpolated fields current = interpolate_env (
      with_url (text_field "url" fields) current
        (interpolate (JsMap.delete String_discrete "url" fields) current))

  -- `url += (url.includes('?') ? '&' : '?') + query`; `none` is the error of an absent URL.
  unfoldable pub appended_query : String → Object → Option Object
  appended_query query fields = ite (String_discrete query "") (some fields) (
      Option.map
        (λ (url : String).
          JsMap.set String_discrete "url"
            (of_text (url ++ ((if has_query url then "&" else "?") ++ query))) fields)
        (text_field "url" fields))

  abbrev pub bodyless_request : ActionType → Object → Bool
  bodyless_request type fields = is_request type && is_bodyless (text_field "method" fields)

  unfoldable pub without_body : Bool → Object → Option Json → Option Object
  without_body bodyless fields none = some fields
  without_body false fields (some body) = some fields
  without_body true fields (some body) =
      Option.map (JsMap.delete String_discrete "body")
        (appended_query (to_search_params body) fields)

  unfoldable pub body_as_query : ActionType → Object → Option Object
  unfolding without_body
  body_as_query type fields =
      without_body (bodyless_request type fields) fields (JsMap.get String_discrete "body" fields)

  -- `data` of the job.
  abbrev pub extra_data : Object → Object
  extra_data fields = elim (JsMap.get String_discrete "data" fields) [
    | none ↦ []
    | some value ↦ object_of value
  ]

  abbrev pub old_data : Option Object → Object
  old_data none = []
  old_data (some old) = ("_oldData", of_object old) ∷ []

  unfoldable pub job_data : Event → Object → Object
  unfolding spread
  job_data event fields =
      spread (("_data", of_object event.current) ∷ old_data event.old) (extra_data fields)

  -- The fields that reach the job as arguments of their own.
  abbrev pub top_level : Object → Object
  top_level fields =
      JsMap.delete String_discrete "_timeout" (JsMap.delete String_discrete "data" fields)

  abbrev pub priority_or_low : Option Priority → Priority
  priority_or_low none = low
  priority_or_low (some priority) = priority

  unfoldable pub job_args : {N : Type 0} → ActionType → Action N → Event → Object → Object
  unfolding spread job_data
  job_args type action event fields =
      JsMap.set String_discrete "data" (of_object (job_data event fields)) (
        JsMap.set String_discrete "delay" (of_delay action.delay) (
          JsMap.set String_discrete "priority" (of_priority (priority_or_low action.priority))
            (spread (("type", of_type type) ∷ []) (top_level fields))))

  abbrev pub timeout_of : Object → ℕ
  timeout_of fields = elim (JsMap.get String_discrete "_timeout" fields) [
    | none ↦ 20000
    | some value ↦ number_of value
  ]

  abbrev pub route_of : {N : Type 0} → Bool → Action N → Object → Route
  route_of true action fields = queued (priority_or_low action.priority)
  route_of false action fields = in_process (timeout_of fields)

  -- The parameters: whether `AMQP_URI` is set, and the registered jobs.
  module _ (v : Values) (amqp : Bool) (registered : ActionType → Option String) where
    abbrev pub job_from :
        ActionType → Action v.Number → Event → Option String → Option Object → Dispatched
    job_from type action event name none = failed
    job_from type action event name (some fields) = sent (record {
      name = name;
      args = job_args type action event fields;
      route = route_of amqp action fields;
    })

    unfoldable pub send_named :
        ActionType → Action v.Number → Event → Option (Option String) → Dispatched
    send_named type action event none = failed
    send_named type action event (some name) =
        job_from type action event name
          (body_as_query type (interpolated action.fields event.current))

    unfoldable pub send : ActionType → Action v.Number → Event → Dispatched
    unfolding send_named
    send type action event =
        send_named type action event (job_name_for registered type action.fields)

    abbrev pub when_valid : Option Bool → Dispatched → Dispatched
    when_valid none d = failed
    when_valid (some false) d = skipped
    when_valid (some true) d = d

    abbrev pub passes : Doc v → Option (Conditions v.Number) → Option Bool
    passes doc none = some true
    passes doc (some conditions) = validate_conditions v doc conditions

    -- `dispatchAction`; the conditions read the document `doc`.
    unfoldable pub dispatch_action : Doc v → Event → ActionType → Action v.Number → Dispatched
    dispatch_action doc event type action =
        when_valid (passes doc action.conditions) (send type action event)

    -- `handleTrigger`: every action that is there; `Promise.all` fails if one of them does.
    unfoldable pub handle_trigger :
        Doc v → Event → List (ActionType × Option (Action v.Number)) → List Dispatched
    handle_trigger doc event [] = []
    handle_trigger doc event ((type, none) ∷ trigger) = handle_trigger doc event trigger
    handle_trigger doc event ((type, some action) ∷ trigger) =
        dispatch_action doc event type action ∷ handle_trigger doc event trigger
