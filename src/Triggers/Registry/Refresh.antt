-- ===== src/Triggers/Registry/Refresh.antt =====
-- What `refreshPersistedTriggers` of registry.ts makes of the persisted entries.
use datamaster.Prelude.{
  ◌≡◌, refl, ap, ◌∙◌, Bool, true, false, ◌&&◌, ◌||◌, Option, none, some, List, [], ◌∷◌, String,
  String_discrete, if_pos, if◌then◌else◌, sym, ◌++◌, append-nil, Bool-cases, ◌⊎◌, inl, inr, is_some,
  arith, holds,
}
use mathlib.Core.Option
use datamaster.JsMap
use datamaster.JsMap.{IsMap}
use datamaster.JsMap.Laws.{delete-IsFresh_self, get_of_IsFresh}
use datamaster.Triggers.Registry.{
  Triggers, Registry, Nested, Persisted, get_nested, set_nested, layered, get_triggers, load,
  load_all, refresh_persisted_triggers, set_persisted_triggers, set_default_suppressed,
  reset_persisted_triggers,
}
use datamaster.Triggers.Registry.Merge.{Timing, Event, actions, merge_triggers-actions}
use datamaster.Triggers.Registry.Layers.{get_nested-set_nested}

-- The triggers of the last active entry of a model.
pub last_active : {A : Type 0} → String → List (Persisted A) → Option (Triggers A)
last_active m [] = none
last_active m (e ∷ es) =
    let later = last_active m es in
    elim later [
      | some t ↦ some t
      | none ↦ if e.active && holds (String_discrete e.model m) then some e.triggers else none
    ]

-- Some entry of the model, active or not, is a default one.
pub has_default : {A : Type 0} → String → List (Persisted A) → Bool
has_default m [] = false
has_default m (e ∷ es) =
    let later = has_default m es in (e.is_default && holds (String_discrete e.model m)) || later

get_nested-set_nested_at :
    {V : Type 0} (c m m' : String) (v : V) (s : Nested V)
    → get_nested c m' (set_nested c m v s)
      ≡ (if holds (String_discrete m m') then some v else get_nested c m' s)
get_nested-set_nested_at c m m' v s =
    get_nested-set_nested c m c m' v s ∙ if_pos (String_discrete c c) refl _ _ ∙ ground arith

emptied :
    {V : Type 0} (c m : String) (s : Nested V)
    → IsMap s
    → get_nested c m (JsMap.delete String_discrete c s) ≡ none
unfolding get_nested JsMap.get
emptied c m s h =
    ap (λ o. JsMap.get String_discrete m (Option.get_or o []))
      (get_of_IsFresh String_discrete c (JsMap.delete String_discrete c s)
        (delete-IsFresh_self String_discrete c s h))

of_cases : {B : Type 0} (o d : Option B) → d ≡ none → elim o [ none ↦ d | some t ↦ some t ] ≡ o
of_cases none d e = e
of_cases (some t) d e = refl

or_absent : {B : Type 0} (b : Bool) (o : Option B) → o ≡ none → (b || is_some o) ≡ b
or_absent true o e = refl
or_absent false o e = ap is_some e

module _ {A : Type 0} where
  reset-static :
      (c : String) (r : Registry A) → (reset_persisted_triggers c r).static_store ≡ r.static_store
  unfolding reset_persisted_triggers
  reset-static c r = refl

  load-persisted :
      (c m : String) (e : Persisted A) (r : Registry A)
      → get_nested c m (load c e r).persisted_store ≡ (
          if e.active && holds (String_discrete e.model m)
          then some e.triggers
          else get_nested c m r.persisted_store)
  unfolding load set_persisted_triggers set_default_suppressed
  load-persisted c m e r =
      ground (arith, get_nested-set_nested_at c e.model m e.triggers r.persisted_store)

  load-suppressed :
      (c m : String) (e : Persisted A) (r : Registry A)
      → is_some (get_nested c m (load c e r).default_suppressed) ≡ (
          (e.is_default && holds (String_discrete e.model m))
          || is_some (get_nested c m r.default_suppressed))
  unfolding load set_persisted_triggers set_default_suppressed
  load-suppressed c m e r =
      ground (arith, get_nested-set_nested_at c e.model m tt r.default_suppressed)

  load-static :
      (c : String) (e : Persisted A) (r : Registry A) → (load c e r).static_store ≡ r.static_store
  unfolding load set_persisted_triggers set_default_suppressed
  load-static c e r = ground arith

  load_all-persisted :
      (c m : String) (es : List (Persisted A)) (r : Registry A)
      → get_nested c m (load_all c es r).persisted_store
        ≡ elim (last_active m es) [ none ↦ get_nested c m r.persisted_store | some t ↦ some t ]
  unfolding load_all last_active
  load_all-persisted c m [] r = refl
  load_all-persisted c m (e ∷ es) r =
      load_all-persisted c m es (load c e r) ∙ ground (arith, load-persisted c m e r)

  load_all-suppressed :
      (c m : String) (es : List (Persisted A)) (r : Registry A)
      → is_some (get_nested c m (load_all c es r).default_suppressed)
        ≡ (has_default m es || is_some (get_nested c m r.default_suppressed))
  unfolding load_all has_default
  load_all-suppressed c m [] r = refl
  load_all-suppressed c m (e ∷ es) r =
      load_all-suppressed c m es (load c e r) ∙ ground (arith, load-suppressed c m e r)

  load_all-static :
      (c : String) (es : List (Persisted A)) (r : Registry A)
      → (load_all c es r).static_store ≡ r.static_store
  unfolding load_all
  load_all-static c [] r = refl
  load_all-static c (e ∷ es) r = load_all-static c es (load c e r) ∙ load-static c e r

  reset-persisted :
      (c m : String) (r : Registry A)
      → IsMap r.persisted_store
      → get_nested c m (reset_persisted_triggers c r).persisted_store ≡ none
  unfolding reset_persisted_triggers get_nested JsMap.get
  reset-persisted c m r h = emptied c m r.persisted_store h

  reset-suppressed :
      (c m : String) (r : Registry A)
      → IsMap r.default_suppressed
      → get_nested c m (reset_persisted_triggers c r).default_suppressed ≡ none
  unfolding reset_persisted_triggers
  reset-suppressed c m r h = emptied c m r.default_suppressed h

  -- The actions of triggers that may be absent.
  abbrev pub actions_in : Timing → Event → Option (Triggers A) → List A
  actions_in timing event none = []
  actions_in timing event (some t) = actions timing event t

  layered-actions :
      (timing : Timing) (event : Event) (static persisted : Option (Triggers A))
      → actions_in timing event (layered static persisted)
        ≡ actions_in timing event static ++ actions_in timing event persisted
  layered-actions timing event none persisted = refl
  layered-actions timing event (some t) none = sym (append-nil (actions timing event t))
  layered-actions timing event (some t) (some p) = merge_triggers-actions timing event t p

  layered-is_some :
      (static persisted : Option (Triggers A))
      → is_some (layered static persisted) ≡ (is_some static || is_some persisted)
  layered-is_some none persisted = refl
  layered-is_some (some t) none = refl
  layered-is_some (some t) (some p) = refl

  refreshed :
      (c m : String) (es : List (Persisted A)) (r : Registry A)
      → IsMap r.persisted_store
      → IsMap r.default_suppressed
      → get_triggers c m (refresh_persisted_triggers c es r) ≡ (
          if has_default m es
          then last_active m es
          else layered (get_nested c m r.static_store) (last_active m es))
  unfolding get_triggers refresh_persisted_triggers
  refreshed c m es r maps maps' =
      let start = reset_persisted_triggers c r in
      let persisted : get_nested c m (load_all c es start).persisted_store ≡ last_active m es =
        load_all-persisted c m es start
        ∙ of_cases (last_active m es) _ (reset-persisted c m r maps) in
      let suppressed : is_some (get_nested c m (load_all c es start).default_suppressed)
          ≡ has_default m es =
        load_all-suppressed c m es start
        ∙ or_absent (has_default m es) _ (reset-suppressed c m r maps') in
      rw
        (persisted, suppressed, ap (get_nested c m) (load_all-static c es start ∙ reset-static c r))
        refl

  -- A refresh replaces what was loaded before. If some entry of a model is a default one, the model's
  -- triggers become those of its last active entry. If none is, it has triggers exactly if it has
  -- static ones or an active entry, and for every timing and event their actions are the static ones
  -- and then those of the last active entry. The stores are maps, as those that the functions build.
  pub get_triggers-refresh :
      (c m : String) (es : List (Persisted A)) (r : Registry A) (timing : Timing) (event : Event)
      → IsMap r.persisted_store
      → IsMap r.default_suppressed
      → ((has_default m es ≡ true)
          × (get_triggers c m (refresh_persisted_triggers c es r) ≡ last_active m es))
        ⊎ ((has_default m es ≡ false)
            × (is_some (get_triggers c m (refresh_persisted_triggers c es r))
                ≡ (is_some (get_nested c m r.static_store) || is_some (last_active m es)))
            × (actions_in timing event (get_triggers c m (refresh_persisted_triggers c es r))
                ≡ actions_in timing event (get_nested c m r.static_store)
                  ++ actions_in timing event (last_active m es)))
  get_triggers-refresh c m es r timing event maps maps' =
      let is = refreshed c m es r maps maps' in
      let chosen = λ (b : Bool).
        if b
        then last_active m es
        else layered (get_nested c m r.static_store) (last_active m es) in
      elim (Bool-cases (has_default m es)) [
        | inl default ↦ inl (default, is ∙ ap chosen default)
        | inr none_is ↦
            let both = is ∙ ap chosen none_is in
            inr (
              none_is,
              ap is_some both ∙ layered-is_some (get_nested c m r.static_store) (last_active m es),
              ap (actions_in timing event) both
                  ∙ layered-actions timing event (get_nested c m r.static_store) (last_active m es),
            )
      ]
