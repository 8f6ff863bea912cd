-- ===== src/Dlq/Provider/Filters.antt =====
-- The conditions that stay in force when the filters of `DLQProvider` are spread.
use datamaster.Prelude.{
  ◌≡◌, ◌≢◌, ◌⊎◌, refl, ◌∙◌, ℕ, Bool, true, ◌&&◌, ◌||◌, Option, none, some, [], ◌∷◌, String,
  String_discrete, arith, text_ne, if_neg, if_pos,
}
use datamaster.JsMap
use datamaster.JsMap.{IsFresh}
use datamaster.JsMap.Laws.{get-set}
use datamaster.Dlq.Entry.{Entry, pending, claimed}
use datamaster.Dlq.Provider.{
  Filter, matches, spread, ClaimOptions, claim_filter, eligible, of_type, when_given, has_status,
  is_lease_free,
}

abbrev condition_at : {D : Type 0} → String → Filter D → Option (D → Bool)
condition_at = JsMap.get String_discrete

module _ {D : Type 0} where
  -- A document that matches satisfies the condition of each key.
  condition_of_matches :
      (k : String) (condition : D → Bool) (f : Filter D) (d : D)
      → condition_at k f ≡ some condition
      → matches f d ≡ true
      → condition d ≡ true
  unfolding JsMap.get
  condition_of_matches k condition [] d e m = cc
  condition_of_matches k condition ((j, c) ∷ f) d e m = elim (String_discrete j k) [
    | yes p ↦ let same : c ≡ condition = ground arith in rw (← same) (ground arith)
    | no p ↦ condition_of_matches k condition f d (ground arith) (ground arith)
  ]

  -- Spreading over a filter leaves the keys that it does not name.
  condition_at-spread :
      (k : String) (base over : Filter D)
      → IsFresh k over
      → condition_at k (spread base over) ≡ condition_at k base
  unfolding spread
  condition_at-spread k base [] fresh = refl
  condition_at-spread k base ((j, c) ∷ over) fresh =
      condition_at-spread k (JsMap.set String_discrete j c base) over fresh.1
      ∙ get-set String_discrete j k c base
      ∙ if_neg (String_discrete j k) fresh.0 _ _

when_given-IsFresh :
    (I J : Type 0) (k : String) (o : Option String)
    → "processType" ≢ k
    → IsFresh k (when_given o (of_type {I = I} {J = J}))
when_given-IsFresh I J k none ne = tt
when_given-IsFresh I J k (some t) ne = elim (String_discrete t "") [
  | yes p ↦ rw (if_pos (String_discrete t "") p) tt
  | no p ↦ rw (if_neg (String_discrete t "") p) (ne, tt)
]

module _ {I J : Type 0} where
  -- Unless the raw filter names the key, the condition of `claim` on it stays.
  condition_at-claim_filter :
      (now : ℕ) (options : ClaimOptions I J) (k : String)
      → "processType" ≢ k
      → IsFresh k options.filter
      → condition_at k (claim_filter now options) ≡ condition_at k (eligible now)
  unfolding claim_filter
  condition_at-claim_filter now options k ne fresh =
      condition_at-spread k (spread (eligible now) (when_given options.process_type of_type))
        options.filter fresh
      ∙ condition_at-spread k (eligible now) (when_given options.process_type of_type)
          (when_given-IsFresh I J k options.process_type ne)

  status-eligible :
      (now : ℕ)
      → condition_at "status" (eligible {I = I} {J = J} now)
        ≡ some (λ d. has_status pending d || has_status claimed d)
  unfolding JsMap.get String_discrete
  status-eligible now = refl

  lease-eligible :
      (now : ℕ) → condition_at "$or" (eligible {I = I} {J = J} now) ≡ some (is_lease_free now)
  unfolding JsMap.get String_discrete
  lease-eligible now = refl

  -- A document that the filter of `claim` accepts, where the raw filter names neither key.
  pub claim_filter-eligible :
      (now : ℕ) (options : ClaimOptions I J) (d : Entry I J)
      → IsFresh "status" options.filter
      → IsFresh "$or" options.filter
      → matches (claim_filter now options) d ≡ true
      → ((d.status ≡ pending) ⊎ (d.status ≡ claimed)) × (is_lease_free now d ≡ true)
  claim_filter-eligible now options d no_status no_lease m =
      let filter = claim_filter now options in
      let status_ok =
        condition_of_matches "status" (λ d. has_status pending d || has_status claimed d) filter d
          (condition_at-claim_filter now options "status" (text_ne "processType" "status" refl)
              no_status
            ∙ status-eligible now)
          m in
      let lease_ok =
        condition_of_matches "$or" (is_lease_free now) filter d
          (condition_at-claim_filter now options "$or" (text_ne "processType" "$or" refl) no_lease
            ∙ lease-eligible now)
          m in
      (ground arith, lease_ok)

  -- A raw filter with the key 'status' takes the place of `claim`'s own condition on the status, so
  -- that such a claim may take a document of any status whose lease does not run.
  claim_filter-override :
      (now : ℕ) (owner : String) (ttl : Option ℕ) (allowed : Entry I J → Bool) (d : Entry I J)
      → matches
          (claim_filter now (record {
            lease_owner = owner;
            lease_ttl_ms = ttl;
            process_type = none;
            filter = ("status", allowed) ∷ [];
          }))
          d
        ≡ (allowed d && is_lease_free now d)
  unfolding claim_filter spread JsMap.set String_discrete
  claim_filter-override now owner ttl allowed d = ground arith
