-- ===== src/Triggers/Dispatch/Bodies.antt =====
-- The bodies of requests: which jobs have none, and why one cannot be moved into a query.
use mathlib.Core.Option
use datamaster.Prelude.{
  ◌≡◌, ◌≢◌, refl, sym, ap, ◌∙◌, Bool, true, false, Option, none, some, List, [], ◌∷◌, String,
  String_discrete, if_pos, if_neg, text_ne,
}
use datamaster.JsMap
use datamaster.JsMap.{IsFresh, IsMap}
use datamaster.JsMap.Laws.{
  get_of_IsFresh, get-IsFresh, delete-IsFresh, delete-IsFresh_self, set-IsFresh, set-IsMap,
}
use datamaster.Triggers.Dispatch.{
  ActionType, Helpers, Action, Event, text_field, spread, appended_query, body_as_query,
  without_body, bodyless_request, top_level, job_args,
}

spread-IsFresh :
    (h : Helpers) (k : String) (base fields : List (String × h.Json))
    → IsFresh k base
    → IsFresh k fields
    → IsFresh k (spread h base fields)
unfolding spread
spread-IsFresh h k base [] b f = b
spread-IsFresh h k base ((name, value) ∷ fields) b f =
    spread-IsFresh h k (JsMap.set String_discrete name value base) fields
      (set-IsFresh String_discrete name k value base f.0 b) f.1

module _ (h : Helpers) where
  abbrev Object : Type 0
  Object = List (String × h.Json)

  pub args_no_body :
      {N : Type 0} (type : ActionType) (action : Action h N) (event : Event h) (fields : Object)
      → IsFresh "body" fields
      → JsMap.get String_discrete "body" (job_args h type action event fields) ≡ none
  unfolding job_args
  args_no_body type action event fields f =
      let top =
        delete-IsFresh String_discrete "_timeout" "body" _
          (delete-IsFresh String_discrete "data" "body" fields f) in
      let all =
        spread-IsFresh h "body" (("type", h.of_type type) ∷ []) (top_level h fields)
          (text_ne "type" "body" refl, tt) top in
      get_of_IsFresh String_discrete "body" _ (
        set-IsFresh String_discrete "data" "body" _ _ (text_ne "data" "body" refl) (
          set-IsFresh String_discrete "delay" "body" _ _ (text_ne "delay" "body" refl) (
            set-IsFresh String_discrete "priority" "body" _ _ (text_ne "priority" "body" refl)
              all)))

  map_delete :
      (o : Option Object) (fields : Object)
      → ((x : Object) → o ≡ some x → IsMap x)
      → Option.map (JsMap.delete String_discrete "body") o ≡ some fields
      → IsFresh "body" fields
  map_delete none fields m e = absurd (cc)
  map_delete (some x) fields m e =
      let same : JsMap.delete String_discrete "body" x ≡ fields = cc in
      rw (← same) (delete-IsFresh_self String_discrete "body" x (m x refl))

  map_set :
      (o : Option String) (text : String → h.Json) (fields x : Object)
      → IsMap fields
      → Option.map (λ (url : String). JsMap.set String_discrete "url" (text url) fields) o ≡ some x
      → IsMap x
  map_set none text fields x m e = absurd (cc)
  map_set (some url) text fields x m e =
      let same : JsMap.set String_discrete "url" (text url) fields ≡ x = cc in
      rw (← same) (set-IsMap String_discrete "url" (text url) fields m)

  appended-IsMap :
      (query : String) (fields x : Object)
      → IsMap fields
      → appended_query h query fields ≡ some x
      → IsMap x
  unfolding appended_query
  appended-IsMap query fields x m e = elim (String_discrete query "") [
    | yes p ↦
        let e' = sym (if_pos (String_discrete query "") p _ _) ∙ e in
        let same : fields ≡ x = cc in rw (← same) m
    | no p ↦
        map_set (text_field h "url" fields) _ fields x m
          (sym (if_neg (String_discrete query "") p _ _) ∙ e)
  ]

  without-IsFresh :
      (fields x : Object) (body : Option h.Json)
      → IsMap fields
      → JsMap.get String_discrete "body" fields ≡ body
      → without_body h true fields body ≡ some x
      → IsFresh "body" x
  unfolding without_body
  without-IsFresh fields x none m g e =
      let same : fields ≡ x = cc in rw (← same) (get-IsFresh String_discrete "body" fields g)
  without-IsFresh fields x (some body) m g e =
      map_delete _ x (λ y q. appended-IsMap (h.to_search_params body) fields y m q) e

  map-none : {A B : Type 0} (f : A → B) (o : Option A) → Option.map f o ≡ none → o ≡ none
  map-none f none e = refl
  map-none f (some x) e = cc

  appended_none :
      (query : String) (fields : Object)
      → appended_query h query fields ≡ none
      → (query ≢ "") × (text_field h "url" fields ≡ none)
  unfolding appended_query
  appended_none query fields e = elim (String_discrete query "") [
    | yes p ↦ let e' = sym (if_pos (String_discrete query "") p _ _) ∙ e in absurd (cc)
    | no p ↦ (
      p,
      map-none _ (text_field h "url" fields) (sym (if_neg (String_discrete query "") p _ _) ∙ e),
    )
  ]

  -- Why a body cannot be moved into the query.
  pub without_none :
      (bodyless : Bool) (fields : Object) (body : Option h.Json)
      → without_body h bodyless fields body ≡ none
      → (bodyless ≡ true)
        × (text_field h "url" fields ≡ none)
        × (x : h.Json) × (body ≡ some x)
        × (h.to_search_params x ≢ "")
  unfolding without_body
  without_none bodyless fields none e = absurd (cc)
  without_none false fields (some x) e = absurd (cc)
  without_none true fields (some x) e =
      let (filled, no_url) =
        appended_none (h.to_search_params x) fields
          (map-none _ (appended_query h (h.to_search_params x) fields) e) in
      (refl, no_url, x, refl, filled)

  -- A request without a body.
  pub query-IsFresh :
      (type : ActionType) (fields x : Object)
      → IsMap fields
      → bodyless_request h type fields ≡ true
      → body_as_query h type fields ≡ some x
      → IsFresh "body" x
  unfolding body_as_query
  query-IsFresh type fields x m test e =
      without-IsFresh fields x (JsMap.get String_discrete "body" fields) m refl
        (ap (λ b. without_body h b fields (JsMap.get String_discrete "body" fields)) (sym test) ∙ e)
