-- ===== src/Triggers/Conditions/Meaning.antt =====
-- What conditions mean, and that the evaluation decides it.
use datamaster.Prelude.{◌≡◌, ◌⊎◌, inl, inr, refl, Bool, true, false, Option, some}
use datamaster.Triggers.Conditions.{
  Values, Operator, equal, unequal, below, above, at_most, at_least, including, unsupported,
  Condition, single, conjunction, disjunction, negation, malformed, Conditions, nil, cons, field_of,
  resolve_value, compare_values, evaluate_single_condition, and_also, or_else, negated,
  evaluate_condition, every, any, validate_conditions, Doc,
}

abbrev pub IsSupported : Operator → Type 0
IsSupported unsupported = ⊥
IsSupported _ = Unit

abbrev mutual
  -- Every part is well formed and has an operator that is supported.
  pub IsWellFormed : {N : Type 0} → Condition N → Type 0
  IsWellFormed (single field op value) = IsSupported op
  IsWellFormed (conjunction cs) = AreWellFormed cs
  IsWellFormed (disjunction cs) = AreWellFormed cs
  IsWellFormed (negation cs) = AreWellFormed cs
  IsWellFormed malformed = ⊥

  pub AreWellFormed : {N : Type 0} → Conditions N → Type 0
  AreWellFormed nil = Unit
  AreWellFormed (cons c cs) = IsWellFormed c × AreWellFormed cs

module _ (v : Values) (doc : Doc v) where
  -- The relation that an operator names.
  abbrev pub Compares : Operator → v.Value → v.Value → Type 0
  Compares equal a b = v.strictly_equal a b ≡ true
  Compares unequal a b = ¬ (v.strictly_equal a b ≡ true)
  Compares below a b = v.less a b ≡ true
  Compares above a b = v.less b a ≡ true
  Compares at_most a b = v.less_or_equal a b ≡ true
  Compares at_least a b = v.less_or_equal b a ≡ true
  Compares including a b = v.includes a b ≡ true
  Compares unsupported a b = ⊥

  abbrev mutual
    pub Holds : Condition v.Number → Type 0
    Holds (single field op value) = Compares op (field_of v doc field) (resolve_value v value doc)
    Holds (conjunction cs) = AllHold cs
    Holds (disjunction cs) = SomeHolds cs
    Holds (negation cs) = ¬ AllHold cs
    Holds malformed = ⊥

    pub AllHold : Conditions v.Number → Type 0
    AllHold nil = Unit
    AllHold (cons c cs) = Holds c × AllHold cs

    pub SomeHolds : Conditions v.Number → Type 0
    SomeHolds nil = ⊥
    SomeHolds (cons c cs) = Holds c ⊎ SomeHolds cs

  -- A result that is no error and tells whether something holds.
  abbrev pub Tells : Option Bool → Type 0 → Type 0
  Tells r P = ((r ≡ some true) × P) ⊎ ((r ≡ some false) × (¬ P))

  and_also-Tells :
      {P Q : Type 0} (r s : Option Bool) → Tells r P → Tells s Q → Tells (and_also v r s) (P × Q)
  and_also-Tells r s (inl (e, p)) (inl (f, q)) = inl (rw e f, (p, q))
  and_also-Tells r s (inl (e, p)) (inr (f, q)) = inr (rw e f, λ both. q both.1)
  and_also-Tells r s (inr (e, p)) t = inr (rw e refl, λ both. p both.0)

  or_else-Tells :
      {P Q : Type 0} (r s : Option Bool) → Tells r P → Tells s Q → Tells (or_else v r s) (P ⊎ Q)
  or_else-Tells r s (inl (e, p)) t = inl (rw e refl, inl p)
  or_else-Tells r s (inr (e, p)) (inl (f, q)) = inl (rw e f, inr q)
  or_else-Tells r s (inr (e, p)) (inr (f, q)) =
      inr (rw e f, λ h. elim h [ inl a ↦ p a | inr b ↦ q b ])

  negated-Tells : {P : Type 0} (r : Option Bool) → Tells r P → Tells (negated v r) (¬ P)
  negated-Tells r (inl (e, p)) = inr (rw e refl, λ n. n p)
  negated-Tells r (inr (e, p)) = inl (rw e refl, p)

  test-Tells : (b : Bool) → Tells (some b) (b ≡ true)
  test-Tells true = inl (refl, refl)
  test-Tells false = inr (refl, λ h. cc)

  compare_values-Tells :
      (op : Operator) (a b : v.Value)
      → IsSupported op
      → Tells (compare_values v op a b) (Compares op a b)
  unfolding compare_values
  compare_values-Tells equal a b h = test-Tells (v.strictly_equal a b)
  compare_values-Tells unequal a b h =
      negated-Tells (some (v.strictly_equal a b)) (test-Tells (v.strictly_equal a b))
  compare_values-Tells below a b h = test-Tells (v.less a b)
  compare_values-Tells above a b h = test-Tells (v.less b a)
  compare_values-Tells at_most a b h = test-Tells (v.less_or_equal a b)
  compare_values-Tells at_least a b h = test-Tells (v.less_or_equal b a)
  compare_values-Tells including a b h = test-Tells (v.includes a b)
  compare_values-Tells unsupported a b h = elim h [ ]

  mutual
    unfolding evaluate_condition evaluate_single_condition

    evaluate-Tells :
        (c : Condition v.Number) → IsWellFormed c → Tells (evaluate_condition v c doc) (Holds c)
    evaluate-Tells (single field op value) h = compare_values-Tells op _ _ h
    evaluate-Tells (conjunction cs) h = every-Tells cs h
    evaluate-Tells (disjunction cs) h = any-Tells cs h
    evaluate-Tells (negation cs) h = negated-Tells (every v cs doc) (every-Tells cs h)
    evaluate-Tells malformed h = elim h [ ]

    every-Tells :
        (cs : Conditions v.Number) → AreWellFormed cs → Tells (every v cs doc) (AllHold cs)
    every-Tells nil h = inl (refl, tt)
    every-Tells (cons c cs) h =
        and_also-Tells (evaluate_condition v c doc) (every v cs doc) (evaluate-Tells c h.0)
          (every-Tells cs h.1)

    any-Tells : (cs : Conditions v.Number) → AreWellFormed cs → Tells (any v cs doc) (SomeHolds cs)
    any-Tells nil h = inr (refl, λ x. x)
    any-Tells (cons c cs) h =
        or_else-Tells (evaluate_condition v c doc) (any v cs doc) (evaluate-Tells c h.0)
          (any-Tells cs h.1)

  -- Well-formed conditions never make an error: `validateConditions` says true if all of them hold,
  -- and false if not. A comparison holds as its operator says of the field and the operand's value,
  -- `and` if all parts do, `or` if one does, and `not` if not all of its parts do, be it that some of
  -- them hold.
  pub validate_conditions-AllHold :
      (cs : Conditions v.Number)
      → AreWellFormed cs
      → Tells (validate_conditions v doc cs) (AllHold cs)
  unfolding validate_conditions
  validate_conditions-AllHold cs h = every-Tells cs h
