-- ===== src/Triggers/Dispatch/Sent.antt =====
-- Which actions become jobs, and what their jobs are.
use mathlib.Core.Option
use datamaster.Prelude.{
  ◌≡◌, ◌≢◌, ◌⊎◌, arith, inl, inr, refl, Bool, true, Option, none, some, List, [], ◌∷◌, String,
  String_discrete,
}
use datamaster.JsMap
use datamaster.JsMap.{IsFresh, IsMap}
use datamaster.Triggers.Conditions.{Values, Doc, Conditions}
use datamaster.Triggers.Conditions.Meaning.{
  AreWellFormed, AllHold, Tells, validate_conditions-AllHold,
}
use datamaster.Triggers.Dispatch.{
  ActionType, mail, request, custom, builtin, Helpers, Action, Event, Dispatched, skipped, failed,
  sent, text_field, job_name_for, default_job, interpolated, body_as_query, bodyless_request, send,
  send_named, job_from, passes, dispatch_action, handle_trigger,
}
use datamaster.Triggers.Dispatch.Bodies.{args_no_body, query-IsFresh, without_none}

module _ (h : Helpers) where
  abbrev Object : Type 0
  Object = List (String × h.Json)

  -- The conditions of an action, if it has any, hold.
  abbrev pub Met : (v : Values) → Doc v → Option (Conditions v.Number) → Type 0
  Met v doc none = Unit
  Met v doc (some conditions) = AllHold v doc conditions

  abbrev pub WellFormed : (v : Values) → Option (Conditions v.Number) → Type 0
  WellFormed v none = Unit
  WellFormed v (some conditions) = AreWellFormed conditions

  module _ (v : Values) (amqp : Bool) (registered : ActionType → Option String) where
    -- The name of an action's job: inline in a custom action (or undefined), registered for another
    -- one, or the default of a mail or a request.
    abbrev pub IsNamed : ActionType → Object → Option String → Type 0
    IsNamed custom fields name = name ≡ text_field h "name" fields
    IsNamed mail fields name = name ≡ some (Option.get_or (registered mail) "zanix:trigger:mail")
    IsNamed request fields name =
        name ≡ some (Option.get_or (registered request) "zanix:trigger:request")
    IsNamed (builtin kind) fields name = (name ≡ registered (builtin kind)) × (name ≢ none)

    -- The kind has no job.
    abbrev pub IsUnnamed : ActionType → Type 0
    IsUnnamed (builtin kind) = registered (builtin kind) ≡ none
    IsUnnamed _ = ⊥

    -- A request that moves a body into the query of a URL that is not there.
    abbrev pub LacksUrl : ActionType → Object → Type 0
    LacksUrl type fields =
        (bodyless_request h type fields ≡ true)
        × (text_field h "url" fields ≡ none)
        × (body : h.Json) × (JsMap.get String_discrete "body" fields ≡ some body)
        × (h.to_search_params body ≢ "")

    -- What a dispatched action shows: it is skipped only if its conditions do not hold; otherwise
    -- they do. It fails only for want of a job's name or of a URL; and a job has the action's name,
    -- and no body where it is a request whose method carries none.
    abbrev pub Justified : Doc v → Event h → ActionType → Action h v.Number → Dispatched h → Type 0
    Justified doc event type action skipped = ¬ Met v doc action.conditions
    Justified doc event type action failed =
        Met v doc action.conditions
        × (IsUnnamed type ⊎ LacksUrl type (interpolated h action.fields event.current))
    Justified doc event type action (sent job) =
        Met v doc action.conditions
        × IsNamed type action.fields job.name
        × (bodyless_request h type (interpolated h action.fields event.current) ≡ true
            → JsMap.get String_discrete "body" job.args ≡ none)

    IsNamed-job_name_for :
        (type : ActionType) (fields : Object) (name : Option String)
        → job_name_for h registered type fields ≡ some name
        → IsNamed type fields name
    unfolding job_name_for default_job
    IsNamed-job_name_for custom fields name e = cc
    IsNamed-job_name_for mail fields name e = ground arith
    IsNamed-job_name_for request fields name e = ground arith
    IsNamed-job_name_for (builtin kind) fields name e = ground arith

    IsUnnamed-job_name_for :
        (type : ActionType) (fields : Object)
        → job_name_for h registered type fields ≡ none
        → IsUnnamed type
    unfolding job_name_for default_job
    IsUnnamed-job_name_for custom fields e = cc
    IsUnnamed-job_name_for mail fields e = ground arith
    IsUnnamed-job_name_for request fields e = ground arith
    IsUnnamed-job_name_for (builtin kind) fields e = ground arith

    none_of-body_as_query :
        (type : ActionType) (fields : Object)
        → body_as_query h type fields ≡ none
        → LacksUrl type fields
    unfolding body_as_query
    none_of-body_as_query type fields e =
        without_none h (bodyless_request h type fields) fields
          (JsMap.get String_discrete "body" fields) e

    passes-Tells :
        (doc : Doc v) (conditions : Option (Conditions v.Number))
        → WellFormed v conditions
        → Tells v doc (passes h v amqp registered doc conditions) (Met v doc conditions)
    passes-Tells doc none w = inl (refl, tt)
    passes-Tells doc (some conditions) w = validate_conditions-AllHold v doc conditions w

    job-Justified :
        (doc : Doc v) (event : Event h) (type : ActionType) (action : Action h v.Number)
        (name : Option String) (o : Option Object)
        → IsMap (interpolated h action.fields event.current)
        → Met v doc action.conditions
        → IsNamed type action.fields name
        → body_as_query h type (interpolated h action.fields event.current) ≡ o
        → Justified doc event type action (job_from h v amqp registered type action event name o)
    job-Justified doc event type action name none m met named q =
        (met, inr (none_of-body_as_query type (interpolated h action.fields event.current) q))
    job-Justified doc event type action name (some x) m met named q =
        (met, named, λ test. args_no_body h type action event x (query-IsFresh h type _ x m test q))

    named-Justified :
        (doc : Doc v) (event : Event h) (type : ActionType) (action : Action h v.Number)
        (name : Option (Option String))
        → IsMap (interpolated h action.fields event.current)
        → Met v doc action.conditions
        → job_name_for h registered type action.fields ≡ name
        → Justified doc event type action (send_named h v amqp registered type action event name)
    unfolding send_named
    named-Justified doc event type action none m met e =
        (met, inl (IsUnnamed-job_name_for type action.fields e))
    named-Justified doc event type action (some name) m met e =
        job-Justified doc event type action name
          (body_as_query h type (interpolated h action.fields event.current)) m met
          (IsNamed-job_name_for type action.fields name e) refl

    send-Justified :
        (doc : Doc v) (event : Event h) (type : ActionType) (action : Action h v.Number)
        → IsMap (interpolated h action.fields event.current)
        → Met v doc action.conditions
        → Justified doc event type action (send h v amqp registered type action event)
    unfolding send
    send-Justified doc event type action m met =
        named-Justified doc event type action (job_name_for h registered type action.fields) m met
          refl

    dispatch-Justified :
        (doc : Doc v) (event : Event h) (type : ActionType) (action : Action h v.Number)
        → IsMap (interpolated h action.fields event.current)
        → WellFormed v action.conditions
        → Justified doc event type action
            (dispatch_action h v amqp registered doc event type action)
    unfolding dispatch_action
    dispatch-Justified doc event type action m w = elim (passes-Tells doc action.conditions w) [
      | inl (e, met) ↦ rw e (send-Justified doc event type action m met)
      | inr (e, unmet) ↦ rw e unmet
    ]

    -- One result for each action that is there, in their order.
    abbrev pub AllJustified :
        Doc v
        → Event h
        → List (ActionType × Option (Action h v.Number))
        → List (Dispatched h)
        → Type 0
    AllJustified doc event [] [] = Unit
    AllJustified doc event [] (r ∷ results) = ⊥
    AllJustified doc event ((type, none) ∷ trigger) results = AllJustified doc event trigger results
    AllJustified doc event ((type, some action) ∷ trigger) [] = ⊥
    AllJustified doc event ((type, some action) ∷ trigger) (r ∷ results) =
        Justified doc event type action r × AllJustified doc event trigger results

    abbrev pub AreWritten : List (ActionType × Option (Action h v.Number)) → Type 0
    AreWritten [] = Unit
    AreWritten ((type, none) ∷ trigger) = AreWritten trigger
    AreWritten ((type, some action) ∷ trigger) = WellFormed v action.conditions × AreWritten trigger

    interpolated-IsMap :
        (fields current : Object)
        → ((x : Object) → IsMap (h.interpolate_env x))
        → IsMap (interpolated h fields current)
    unfolding interpolated
    interpolated-IsMap fields current m = m _

    -- `handleTrigger`, for well-formed conditions and an `interpolateEnv` that gives objects with
    -- each name once, dispatches the actions that are there in their order, whatever becomes of the
    -- others. One is skipped exactly where its conditions do not hold. Else it becomes a job, or an
    -- error: only where its kind has neither a registered job nor a default, or where a request has a
    -- body to move into the query and no URL. The job has the name that is inlined in a custom
    -- action, or registered for its kind, or the default; and that of a request whose method is GET,
    -- HEAD or DELETE has no body.
    pub handle_trigger-AllJustified :
        (doc : Doc v) (event : Event h) (trigger : List (ActionType × Option (Action h v.Number)))
        → ((x : Object) → IsMap (h.interpolate_env x))
        → AreWritten trigger
        → AllJustified doc event trigger (handle_trigger h v amqp registered doc event trigger)
    unfolding handle_trigger
    handle_trigger-AllJustified doc event [] m w = tt
    handle_trigger-AllJustified doc event ((type, none) ∷ trigger) m w =
        handle_trigger-AllJustified doc event trigger m w
    handle_trigger-AllJustified doc event ((type, some action) ∷ trigger) m w = (
      dispatch-Justified doc event type action (interpolated-IsMap action.fields event.current m)
          w.0,
      handle_trigger-AllJustified doc event trigger m w.1,
    )
