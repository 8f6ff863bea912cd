-- ===== src/Tests/Dispatch.antt =====
-- Conditions and dispatched actions on small inputs.
use datamaster.Prelude.{
  ℕ, ◌≡◌, refl, true, false, Bool, Option, none, some, List, [], ◌∷◌, String, String_discrete, ite,
  ltb, ◌==◌, if◌then◌else◌,
}
use datamaster.JsMap
use datamaster.JsMap.{IsMap}
use datamaster.JsMap.Laws.{set-IsMap}
use datamaster.Triggers.Conditions.{
  Values, Doc, Conditions, single, negation, nil, cons, equal, below, number, validate_conditions,
  every, evaluate_single_condition, compare_values, resolve_value,
}
use datamaster.Triggers.Conditions.Meaning.{Tells, AllHold, validate_conditions-AllHold}
use datamaster.Triggers.Dispatch.{ActionType, mail, request, Helpers, Action, Event, handle_trigger}
use datamaster.Triggers.Dispatch.Sent.{AllJustified, handle_trigger-AllJustified}

abbrev same_number : Option ℕ → Option ℕ → Bool
same_number none none = true
same_number (some a) (some b) = a == b
same_number _ _ = false

abbrev smaller : Option ℕ → Option ℕ → Bool
smaller (some a) (some b) = ltb a b
smaller _ _ = false

-- Numbers, and one value for all else.
abbrev numbers : Values
numbers = record {
  Value = Option ℕ;
  Number = ℕ;
  undefined = none;
  of_text = λ t. none;
  of_boolean = λ b. none;
  of_number = λ n. some n;
  strictly_equal = same_number;
  less = smaller;
  less_or_equal = λ a b. if smaller a b then true else same_number a b;
  includes = λ a b. false;
}

abbrev doc : Doc numbers
doc = some (λ field. ite (String_discrete field "age") (some 20) none)

-- `age` is 20, and `size` is not below 3.
abbrev neither : Conditions ℕ
neither =
    cons
      (negation (cons (single "age" equal (number 20)) (cons (single "size" below (number 3)) nil)))
      nil

validate_conditions-AllHold_example :
    Tells numbers doc (validate_conditions numbers doc neither) (AllHold numbers doc neither)
validate_conditions-AllHold_example =
    validate_conditions-AllHold numbers doc neither ((tt, (tt, tt)), tt)

-- One part of the negation holds, and it passes.
neither_passes : validate_conditions numbers doc neither ≡ some true
unfolding validate_conditions every evaluate_single_condition compare_values resolve_value
    String_discrete
neither_passes = refl

rebuild : List (String × String) → List (String × String)
rebuild [] = []
rebuild ((name, value) ∷ fields) = JsMap.set String_discrete name value (rebuild fields)

rebuild-IsMap : (fields : List (String × String)) → IsMap (rebuild fields)
unfolding rebuild
rebuild-IsMap [] = tt
rebuild-IsMap ((name, value) ∷ fields) =
    set-IsMap String_discrete name value (rebuild fields) (rebuild-IsMap fields)

-- Every value is a text, and nothing is interpolated.
abbrev texts : Helpers
texts = record {
  Json = String;
  of_text = λ t. t;
  of_type = λ t. "type";
  of_priority = λ p. "priority";
  of_delay = λ d. "delay";
  of_object = λ o. "object";
  text_of = λ t. some t;
  number_of = λ t. 5;
  object_of = λ t. [];
  interpolate = λ fields current. fields;
  interpolate_url = λ url current. url;
  interpolate_env = λ fields. rebuild fields;
  to_search_params = λ body. "a=1";
}

abbrev event : Event texts
event = record { current = []; old = none }

abbrev fetching : Action texts ℕ
fetching = record {
  conditions = some neither;
  priority = none;
  delay = none;
  fields = ("url", "http://host/path") ∷ ("method", "GET") ∷ ("body", "body") ∷ [];
}

abbrev mailing : Action texts ℕ
mailing = record {
  conditions = some (cons (single "age" below (number 18)) nil);
  priority = none;
  delay = none;
  fields = [];
}

abbrev trigger : List (ActionType × Option (Action texts ℕ))
trigger = (request, some fetching) ∷ (mail, some mailing) ∷ []

handle_trigger-AllJustified_example :
    AllJustified texts numbers true
      (λ t. none)
      doc
      event
      trigger
      (handle_trigger texts numbers true (λ t. none) doc event trigger)
handle_trigger-AllJustified_example =
    handle_trigger-AllJustified texts numbers true (λ t. none) doc event trigger rebuild-IsMap
      (((tt, (tt, tt)), tt), ((tt, tt), tt))
