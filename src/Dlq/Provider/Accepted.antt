-- ===== src/Dlq/Provider/Accepted.antt =====
-- What the filter of `claim` accepts, of a raw filter that is spread over its own conditions.
use datamaster.Prelude.{
  ℕ, ◌≡◌, refl, sym, ap, ◌∙◌, Bool, true, false, ◌&&◌, ◌||◌, Option, none, some, [], ◌∷◌, String,
  String_discrete, holds, ltb, arith, if_neg, if_pos,
}
use datamaster.JsMap
use datamaster.JsMap.{IsFresh, IsMap}
use datamaster.JsMap.Laws.{set-IsFresh}
use datamaster.Dlq.Entry.{Entry, pending, claimed}
use datamaster.Dlq.Provider.{
  Filter, matches, spread, ClaimOptions, claim_filter, eligible, of_type, when_given, has_status,
  is_lease_free,
}

holds_yes : {P : Type 0} (d : Dec P) → P → holds d ≡ true
holds_yes (yes p) q = refl
holds_yes (no p) q = absurd (p q)

holds_no : {P : Type 0} (d : Dec P) → ¬ P → holds d ≡ false
holds_no (yes p) q = absurd (q p)
holds_no (no p) q = refl

and_true : (b : Bool) → (b && true) ≡ b
and_true true = refl
and_true false = refl

module _ {D : Type 0} where
  -- No key of the second filter is one of the first.
  abbrev AreNew : Filter D → Filter D → Type 0
  AreNew base [] = Unit
  AreNew base ((k, c) ∷ over) = IsFresh k base × AreNew base over

  matches-set :
      (k : String) (c : D → Bool) (base : Filter D) (d : D)
      → IsFresh k base
      → matches (JsMap.set String_discrete k c base) d ≡ (matches base d && c d)
  unfolding JsMap.set
  matches-set k c [] d fresh = ground arith
  matches-set k c ((j, b) ∷ base) d fresh =
      ap (λ m. matches m d) (if_neg (String_discrete j k) fresh.0 _ _)
      ∙ (let rest = matches-set k c base d fresh.1 in ground arith)

  AreNew-set :
      (k : String) (c : D → Bool) (base over : Filter D)
      → IsFresh k over
      → AreNew base over
      → AreNew (JsMap.set String_discrete k c base) over
  AreNew-set k c base [] fresh new = tt
  AreNew-set k c base ((j, b) ∷ over) fresh new = (
    set-IsFresh String_discrete k j c base (λ e. fresh.0 (sym e)) new.0,
    AreNew-set k c base over fresh.1 new.1,
  )

  matches-spread :
      (base over : Filter D) (d : D)
      → IsMap over
      → AreNew base over
      → matches (spread base over) d ≡ (matches base d && matches over d)
  unfolding spread
  matches-spread base [] d once new = ground arith
  matches-spread base ((k, c) ∷ over) d once new =
      let here = matches-set k c base d new.0 in
      matches-spread (JsMap.set String_discrete k c base) over d once.1
        (AreNew-set k c base over once.0 new.1)
      ∙ ground arith

module _ {I J : Type 0} where
  -- Names no key of `claim`'s own conditions, and each key once.
  abbrev pub IsSeparate : Filter (Entry I J) → Type 0
  IsSeparate filter =
      IsFresh "status" filter × IsFresh "$or" filter × IsFresh "processType" filter × IsMap filter

  abbrev pub has_type : Option String → Entry I J → Bool
  has_type none d = true
  has_type (some t) d = holds (String_discrete t "") || holds (String_discrete d.process_type t)

  -- A pending or claimed document without a lease that still runs, of the process type, if one is
  -- given, and accepted by each condition of the raw filter.
  abbrev pub accepts : ℕ → ClaimOptions I J → Entry I J → Bool
  accepts now options d =
      ((has_status pending d || has_status claimed d)
        && (elim d.lease_expires_at [ none ↦ true | some until ↦ ltb until now ]
            && has_type options.process_type d))
      && matches options.filter d

  AreNew-eligible :
      (now : ℕ) (filter : Filter (Entry I J)) → IsSeparate filter → AreNew (eligible now) filter
  AreNew-eligible now [] s = tt
  AreNew-eligible now ((k, c) ∷ filter) ((s, status), (l, lease), (t, type), (_, once)) = (
    ((λ e. s (sym e)), ((λ e. l (sym e)), tt)),
    AreNew-eligible now filter (status, lease, type, once),
  )

  abbrev typed : ℕ → String → Filter (Entry I J)
  typed now t =
      ("status", λ d. has_status pending d || has_status claimed d)
      ∷ ("$or", is_lease_free now)
      ∷ ("processType", λ d. holds (String_discrete d.process_type t))
      ∷ []

  AreNew-typed :
      (now : ℕ) (t : String) (filter : Filter (Entry I J))
      → IsSeparate filter
      → AreNew (typed now t) filter
  AreNew-typed now t [] s = tt
  AreNew-typed now t ((k, c) ∷ filter) ((s, status), (l, lease), (y, type), (_, once)) = (
    ((λ e. s (sym e)), ((λ e. l (sym e)), ((λ e. y (sym e)), tt))),
    AreNew-typed now t filter (status, lease, type, once),
  )

  spread-of_type : (now : ℕ) (t : String) → spread (eligible now) (of_type t) ≡ typed now t
  unfolding spread JsMap.set String_discrete
  spread-of_type now t = refl

  spread-nothing : (now : ℕ) → spread (eligible {I = I} {J = J} now) [] ≡ eligible now
  unfolding spread
  spread-nothing now = refl

  matches-eligible :
      (now : ℕ) (filter : Filter (Entry I J)) (d : Entry I J)
      → IsSeparate filter
      → matches (spread (spread (eligible now) []) filter) d ≡ (
          ((has_status pending d || has_status claimed d) && (is_lease_free now d && true))
          && matches filter d)
  matches-eligible now filter d s =
      ap (λ b. matches (spread b filter) d) (spread-nothing now)
      ∙ matches-spread (eligible now) filter d s.3 (AreNew-eligible now filter s)

  matches-typed :
      (now : ℕ) (t : String) (filter : Filter (Entry I J)) (d : Entry I J)
      → IsSeparate filter
      → matches (spread (spread (eligible now) (of_type t)) filter) d ≡ (
          ((has_status pending d || has_status claimed d)
            && (is_lease_free now d && (holds (String_discrete d.process_type t) && true)))
          && matches filter d)
  matches-typed now t filter d s =
      ap (λ b. matches (spread b filter) d) (spread-of_type now t)
      ∙ matches-spread (typed now t) filter d s.3 (AreNew-typed now t filter s)

  with_type :
      (now : ℕ) (type : Option String) (filter : Filter (Entry I J)) (d : Entry I J)
      → IsSeparate filter
      → matches (spread (spread (eligible now) (when_given type of_type)) filter) d ≡ (
          ((has_status pending d || has_status claimed d)
            && (is_lease_free now d && has_type type d))
          && matches filter d)
  with_type now none filter d s = matches-eligible now filter d s
  with_type now (some t) filter d s =
      let own = has_status pending d || has_status claimed d in
      let with_absent = λ (b : Bool).
        (own && (is_lease_free now d && (b || holds (String_discrete d.process_type t))))
        && matches filter d in
      elim (String_discrete t "") [
        | yes p ↦
            ap (λ b. matches (spread (spread (eligible now) b) filter) d)
              (if_pos (String_discrete t "") p _ _)
            ∙ matches-eligible now filter d s
            ∙ ap with_absent (sym (holds_yes (String_discrete t "") p))
        | no p ↦
            ap (λ b. matches (spread (spread (eligible now) b) filter) d)
              (if_neg (String_discrete t "") p _ _)
            ∙ matches-typed now t filter d s
            ∙ ap (λ b. (own && (is_lease_free now d && b)) && matches filter d)
                (and_true (holds (String_discrete d.process_type t)))
            ∙ ap with_absent (sym (holds_no (String_discrete t "") p))
      ]

  pub claim_filter-accepts :
      (now : ℕ) (options : ClaimOptions I J) (d : Entry I J)
      → IsSeparate options.filter
      → matches (claim_filter now options) d ≡ accepts now options d
  unfolding claim_filter
  claim_filter-accepts now options d s = with_type now options.process_type options.filter d s
