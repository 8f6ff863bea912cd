-- ===== src/Triggers/Conditions.antt =====
-- processor/triggers/conditions.ts: the conditions of trigger actions. An error is `none`.
pub mod Meaning
use package.text.Mathlib.Text.{starts_with}
use datamaster.Prelude.{
  Bool, true, false, not, Option, none, some, String, String_discrete, ite, if◌then◌else◌,
}

-- What the module uses of the values of JavaScript. `a > b` is `b < a`, and `a >= b` is `b <= a`.
pub record Values : Type 1 where
  pub Value : Type 0
  pub Number : Type 0
  pub undefined : Value
  pub of_text : String → Value
  pub of_boolean : Bool → Value
  pub of_number : Number → Value
  pub strictly_equal : Value → Value → Bool
  pub less : Value → Value → Bool
  pub less_or_equal : Value → Value → Bool
  -- `Boolean(a?.includes?.(b))`
  pub includes : Value → Value → Bool

-- `string | boolean | number`
pub data Operand (Number : Type 0) : Type 0 where
  text : String → Operand Number
  boolean : Bool → Operand Number
  number : Number → Operand Number

-- `unsupported` is any other text.
pub data Operator : Type 0 where
  equal unequal below above at_most at_least including unsupported : Operator

-- `malformed` is an object of none of the four forms.
mutual
  pub data Condition (Number : Type 0) : Type 0 where
    single : String → Operator → Operand Number → Condition Number
    conjunction disjunction negation : Conditions Number → Condition Number
    malformed : Condition Number

  pub data Conditions (Number : Type 0) : Type 0 where
    nil : Conditions Number
    cons : Condition Number → Conditions Number → Conditions Number

-- `text.slice(1)`
abbrev pub tail_of : String → String
tail_of String.[] = String.[]
tail_of (String.◌∷◌ c t) = t

module _ (v : Values) where
  -- `data`, with `undefined` for a field that it does not have; `none` is no document.
  abbrev pub Doc : Type 0
  Doc = Option (String → v.Value)

  -- `data?.[field]`
  abbrev pub field_of : Doc → String → v.Value
  field_of none field = v.undefined
  field_of (some data_fields) field = data_fields field

  unfoldable pub resolve_value : Operand v.Number → Doc → v.Value
  resolve_value (boolean b) doc = v.of_boolean b
  resolve_value (number n) doc = v.of_number n
  resolve_value (text t) doc =
      ite (String_discrete t "!$undefined") v.undefined
        (if starts_with t "$" then field_of doc (tail_of t) else v.of_text t)

  unfoldable pub compare_values : Operator → v.Value → v.Value → Option Bool
  compare_values equal a b = some (v.strictly_equal a b)
  compare_values unequal a b = some (not (v.strictly_equal a b))
  compare_values below a b = some (v.less a b)
  compare_values above a b = some (v.less b a)
  compare_values at_most a b = some (v.less_or_equal a b)
  compare_values at_least a b = some (v.less_or_equal b a)
  compare_values including a b = some (v.includes a b)
  compare_values unsupported a b = none

  unfoldable pub evaluate_single_condition :
      String → Operator → Operand v.Number → Doc → Option Bool
  evaluate_single_condition field op value doc =
      compare_values op (field_of doc field) (resolve_value value doc)

  -- `&&`, `||` and `!` of results that may be errors; the second one is looked at if need be.
  abbrev pub and_also : Option Bool → Option Bool → Option Bool
  and_also none b = none
  and_also (some false) b = some false
  and_also (some true) b = b

  abbrev pub or_else : Option Bool → Option Bool → Option Bool
  or_else none b = none
  or_else (some true) b = some true
  or_else (some false) b = b

  abbrev pub negated : Option Bool → Option Bool
  negated none = none
  negated (some b) = some (not b)

  unfoldable mutual
    pub evaluate_condition : Condition v.Number → Doc → Option Bool
    evaluate_condition (single field op value) doc = evaluate_single_condition field op value doc
    evaluate_condition (conjunction conditions) doc = every conditions doc
    evaluate_condition (disjunction conditions) doc = any conditions doc
    evaluate_condition (negation conditions) doc = negated (every conditions doc)
    evaluate_condition malformed doc = none

    -- `conditions.every(...)`
    pub every : Conditions v.Number → Doc → Option Bool
    every nil doc = some true
    every (cons condition conditions) doc =
        and_also (evaluate_condition condition doc) (every conditions doc)

    -- `conditions.some(...)`
    pub any : Conditions v.Number → Doc → Option Bool
    any nil doc = some false
    any (cons condition conditions) doc =
        or_else (evaluate_condition condition doc) (any conditions doc)

  unfoldable pub validate_conditions : Doc → Conditions v.Number → Option Bool
  validate_conditions doc conditions = every conditions doc
