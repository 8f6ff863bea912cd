-- ===== src/Triggers/Registry/Layers.antt =====
-- What `getTriggers` of registry.ts returns after the other functions.
use datamaster.Prelude.{
  ◌≡◌, ◌≢◌, inl, inr, refl, sym, ap, ◌∙◌, Option, none, some, List, [], ◌∷◌, String,
  String_discrete, ite, if_pos, if_neg, Option-cases, if_cases, All,
}
use mathlib.Core.Option
use datamaster.JsMap
use datamaster.JsMap.Laws.{get-set, get-delete_ne}
use datamaster.Triggers.Registry.{
  Triggers, Registry, Nested, Persisted, bucket, get_nested, set_nested, delete_nested,
  get_triggers, load, load_all, refresh_persisted_triggers, set_static_triggers,
  set_persisted_triggers, set_default_suppressed, reset_persisted_triggers,
}

pub get_nested-set_nested :
    {V : Type 0} (c m c' m' : String) (v : V) (s : Nested V)
    → get_nested c' m' (set_nested c m v s)
      ≡ ite
          (String_discrete c c')
          (ite (String_discrete m m') (some v) (get_nested c' m' s))
          (get_nested c' m' s)
unfolding get_nested set_nested
get_nested-set_nested c m c' m' v s = elim (String_discrete c c') [
  | yes p ↦
      ap (λ o. JsMap.get String_discrete m' (Option.get_or o []))
        (get-set String_discrete c c' _ s ∙ if_pos (String_discrete c c') p _ _)
      ∙ get-set String_discrete m m' v (bucket c s)
      ∙ ap (λ x. ite (String_discrete m m') (some v) (JsMap.get String_discrete m' (bucket x s))) p
      ∙ sym (if_pos (String_discrete c c') p _ _)
  | no p ↦
      ap (λ o. JsMap.get String_discrete m' (Option.get_or o []))
        (get-set String_discrete c c' _ s ∙ if_neg (String_discrete c c') p _ _)
      ∙ sym (if_neg (String_discrete c c') p _ _)
]

-- The bucket of a connector decides what is found.
bucket-set_nested :
    {V : Type 0} (c m c' : String) (v : V) (s : Nested V)
    → c ≢ c'
    → bucket c' (set_nested c m v s) ≡ bucket c' s
unfolding set_nested
bucket-set_nested c m c' v s ne =
    ap (λ o. Option.get_or o [])
      (get-set String_discrete c c' _ s ∙ if_neg (String_discrete c c') ne _ _)

bucket-delete_nested :
    {V : Type 0} (c m c' : String) (s : Nested V)
    → c ≢ c'
    → bucket c' (delete_nested c m s) ≡ bucket c' s
unfolding delete_nested
bucket-delete_nested c m c' s ne = elim (Option-cases (JsMap.get String_discrete c s)) [
  | inl nothing ↦ rw (nothing, delete_nested) refl
  | inr (models, something) ↦
      rw (something, delete_nested)
        (ap (λ o. Option.get_or o [])
          (get-set String_discrete c c' _ s ∙ if_neg (String_discrete c c') ne _ _))
]

bucket-delete :
    {V : Type 0} (c c' : String) (s : Nested V)
    → c ≢ c'
    → bucket c' (JsMap.delete String_discrete c s) ≡ bucket c' s
bucket-delete c c' s ne =
    ap (λ o. Option.get_or o []) (get-delete_ne String_discrete c c' s (λ e. ne (sym e)))

-- The two registries agree on a connector.
record IsSameFor {A : Type 0} (c : String) (r r' : Registry A) : Type 0 where
  static_same : bucket c r.static_store ≡ bucket c r'.static_store
  persisted_same : bucket c r.persisted_store ≡ bucket c r'.persisted_store
  suppressed_same : bucket c r.default_suppressed ≡ bucket c r'.default_suppressed

-- A call of one of the registry's functions.
pub data Call (A : Type 0) : Type 0 where
  set_static : String → Option (Triggers A) → Call A
  set_persisted : String → Triggers A → Call A
  suppress : String → Call A
  reset : Call A
  refresh : List (Persisted A) → Call A

pub run_call : {A : Type 0} → String → Call A → Registry A → Registry A
run_call c (set_static m triggers) r = set_static_triggers c m triggers r
run_call c (set_persisted m triggers) r = set_persisted_triggers c m triggers r
run_call c (suppress m) r = set_default_suppressed c m r
run_call c reset r = reset_persisted_triggers c r
run_call c (refresh entries) r = refresh_persisted_triggers c entries r

pub run_calls : {A : Type 0} → List (String × Call A) → Registry A → Registry A
run_calls [] r = r
run_calls ((c, call) ∷ calls) r = run_calls calls (run_call c call r)

module _ {A : Type 0} where
  get_triggers-IsSameFor :
      (c m : String) (r r' : Registry A)
      → IsSameFor c r r'
      → get_triggers c m r ≡ get_triggers c m r'
  unfolding get_triggers get_nested
  get_triggers-IsSameFor c m r r' h =
      rw (h.static_same, h.persisted_same, h.suppressed_same, get_triggers, get_nested) refl

  set_persisted-IsSameFor :
      (c d m : String) (triggers : Triggers A) (r : Registry A)
      → c ≢ d
      → IsSameFor d (set_persisted_triggers c m triggers r) r
  unfolding set_persisted_triggers
  set_persisted-IsSameFor c d m triggers r ne = record {
    static_same = refl;
    persisted_same = bucket-set_nested c m d triggers r.persisted_store ne;
    suppressed_same = refl;
  }

  suppress-IsSameFor :
      (c d m : String) (r : Registry A) → c ≢ d → IsSameFor d (set_default_suppressed c m r) r
  unfolding set_default_suppressed
  suppress-IsSameFor c d m r ne = record {
    static_same = refl;
    persisted_same = refl;
    suppressed_same = bucket-set_nested c m d tt r.default_suppressed ne;
  }

  reset-IsSameFor :
      (c d : String) (r : Registry A) → c ≢ d → IsSameFor d (reset_persisted_triggers c r) r
  unfolding reset_persisted_triggers
  reset-IsSameFor c d r ne = record {
    static_same = refl;
    persisted_same = bucket-delete c d r.persisted_store ne;
    suppressed_same = bucket-delete c d r.default_suppressed ne;
  }

  set_static-IsSameFor :
      (c d m : String) (triggers : Option (Triggers A)) (r : Registry A)
      → c ≢ d
      → IsSameFor d (set_static_triggers c m triggers r) r
  unfolding set_static_triggers
  set_static-IsSameFor c d m none r ne = record {
    static_same = bucket-delete_nested c m d r.static_store ne;
    persisted_same = refl;
    suppressed_same = refl;
  }
  set_static-IsSameFor c d m (some triggers) r ne = record {
    static_same = bucket-set_nested c m d triggers r.static_store ne;
    persisted_same = refl;
    suppressed_same = refl;
  }

  trans-IsSameFor :
      (d : String) (r r' r'' : Registry A)
      → IsSameFor d r r'
      → IsSameFor d r' r''
      → IsSameFor d r r''
  trans-IsSameFor d r r' r'' h h' = record {
    static_same = h.static_same ∙ h'.static_same;
    persisted_same = h.persisted_same ∙ h'.persisted_same;
    suppressed_same = h.suppressed_same ∙ h'.suppressed_same;
  }

  same-IsSameFor : (d : String) (r : Registry A) → IsSameFor d r r
  same-IsSameFor d r = record { static_same = refl; persisted_same = refl; suppressed_same = refl }

  load-IsSameFor :
      (c d : String) (entry : Persisted A) (r : Registry A) → c ≢ d → IsSameFor d (load c entry r) r
  unfolding load
  load-IsSameFor c d entry r ne =
      let active =
        if_cases (λ x. IsSameFor d x r) entry.active
          (λ _. set_persisted-IsSameFor c d entry.model entry.triggers r ne)
          (λ _. same-IsSameFor d r) in
      if_cases (λ x. IsSameFor d x r) entry.is_default
        (λ _. trans-IsSameFor d _ _ r (suppress-IsSameFor c d entry.model _ ne) active)
        (λ _. active)

  load_all-IsSameFor :
      (c d : String) (entries : List (Persisted A)) (r : Registry A)
      → c ≢ d
      → IsSameFor d (load_all c entries r) r
  unfolding load_all
  load_all-IsSameFor c d [] r ne = same-IsSameFor d r
  load_all-IsSameFor c d (entry ∷ entries) r ne =
      trans-IsSameFor d _ (load c entry r) r (load_all-IsSameFor c d entries (load c entry r) ne)
        (load-IsSameFor c d entry r ne)

  run_call-IsSameFor :
      (c d : String) (call : Call A) (r : Registry A) → c ≢ d → IsSameFor d (run_call c call r) r
  unfolding run_call refresh_persisted_triggers
  run_call-IsSameFor c d (set_static m triggers) r ne = set_static-IsSameFor c d m triggers r ne
  run_call-IsSameFor c d (set_persisted m triggers) r ne =
      set_persisted-IsSameFor c d m triggers r ne
  run_call-IsSameFor c d (suppress m) r ne = suppress-IsSameFor c d m r ne
  run_call-IsSameFor c d reset r ne = reset-IsSameFor c d r ne
  run_call-IsSameFor c d (refresh entries) r ne =
      trans-IsSameFor d _ (reset_persisted_triggers c r) r
        (load_all-IsSameFor c d entries (reset_persisted_triggers c r) ne)
        (reset-IsSameFor c d r ne)

  run_calls-IsSameFor :
      (d : String) (calls : List (String × Call A)) (r : Registry A)
      → All (λ (call : String × Call A). call.0 ≢ d) calls
      → IsSameFor d (run_calls calls r) r
  unfolding run_calls
  run_calls-IsSameFor d [] r all = same-IsSameFor d r
  run_calls-IsSameFor d ((c, call) ∷ calls) r all =
      trans-IsSameFor d _ (run_call c call r) r
        (run_calls-IsSameFor d calls (run_call c call r) all.1)
        (run_call-IsSameFor c d call r all.0)

  -- Whatever is registered, refreshed or reset for other connectors, the triggers of a connector's
  -- models stay what they were.
  pub get_triggers-run_calls :
      (d m : String) (calls : List (String × Call A)) (r : Registry A)
      → All (λ (call : String × Call A). call.0 ≢ d) calls
      → get_triggers d m (run_calls calls r) ≡ get_triggers d m r
  get_triggers-run_calls d m calls r all =
      get_triggers-IsSameFor d m (run_calls calls r) r (run_calls-IsSameFor d calls r all)
