-- ===== src/Dlq/Provider/Claims.antt =====
-- What `claim` of `DLQProvider` may take, and for how long it keeps others away.
use datamaster.Prelude.{
  ℕ, ◌+◌, ◌≤◌, ◌≡◌, ◌≢◌, ◌⊎◌, refl, sym, ap, ◌∙◌, true, false, none, some, List, [], ◌∷◌, ◌++◌,
  String, arith, All, All-middle, All-map, Bool, false, Option-cases, inl, inr,
}
use mathlib.Core.Option
use mathlib.Core.Path.{subst}
use datamaster.JsMap.{IsFresh}
use datamaster.Collection.{Collection, Updated, Updated-All, Updated-some, Updated-none}
use datamaster.Collection.Unique.{IsUnique, IsOnly, IsUnique-IsOnly, Updated-IsUnique}
use datamaster.Dlq.Entry.{Entry, claimed}
use datamaster.Dlq.Provider.{matches, ClaimOptions, claim_filter, claim, take_lease, is_lease_free}
use datamaster.Dlq.Provider.Filters.{claim_filter-eligible}
use datamaster.Dlq.Provider.Accepted.{IsSeparate, accepts, claim_filter-accepts}
use datamaster.Dlq.Provider.Calls.{Call, run, step}

-- The raw filter leaves `claim`'s own conditions in place.
abbrev pub IsClean : {I J : Type 0} → ClaimOptions I J → Type 0
IsClean options = IsFresh "status" options.filter × IsFresh "$or" options.filter

module _ {I J : Type 0} (same_id : Discrete I) (text : String → J)
    (c : Collection (Entry I J) I (λ d. d.id)) where
  open c use {Store, docs, find_one_and_update_lem}

  claim-Updated :
      (now ttl : ℕ) (options : ClaimOptions I J) (s : Store)
      → Updated
          (matches (claim_filter now options))
          (λ d. d.created_at)
          (take_lease options.lease_owner (now + Option.get_or options.lease_ttl_ms ttl))
          (docs s)
          (docs (claim same_id text c now ttl options s).0)
          (claim same_id text c now ttl options s).1
  unfolding claim
  claim-Updated now ttl options s = find_one_and_update_lem _ _ _ s

  accepted :
      (now : ℕ) (options : ClaimOptions I J) (P : Entry I J → Bool → Type 0)
      → IsSeparate options.filter
      → (docs : List (Entry I J)) → All (λ d. P d (matches (claim_filter now options) d)) docs
      → All (λ d. P d (accepts now options d)) docs
  accepted now options P separate =
      All-map _ _ (λ d. subst (P d) (claim_filter-accepts now options d separate))

  -- A document that a claim has taken.
  abbrev pub leased : ClaimOptions I J → ℕ → Entry I J → Entry I J
  leased options until d = record d {
    status = claimed;
    lease_owner = some options.lease_owner;
    lease_expires_at = some until;
    attempts = d.attempts + 1;
  }

  -- A claim takes a document exactly if there is one that it accepts: pending or claimed, without a
  -- lease that still runs, of the process type, if one is given, and accepted by each condition of
  -- the raw filter. What it takes is one of the oldest of these; that document gets the owner, a
  -- lease from now and one more attempt and is returned, and no other document changes. If there is
  -- none, nothing is returned and nothing changes. The raw filter names each key once, and not
  -- `status`, `$or` or `processType`.
  pub claim-eligible :
      (now ttl : ℕ) (options : ClaimOptions I J) (s : Store)
      → IsSeparate options.filter
      → (((claim same_id text c now ttl options s).1 ≡ none)
          × (docs (claim same_id text c now ttl options s).0 ≡ docs s)
          × All (λ d. accepts now options d ≡ false) (docs s))
        ⊎ ((before : List (Entry I J)) × (after : List (Entry I J)) × (d : Entry I J) × (docs s
              ≡ before ++ d ∷ after)
            × ((claim same_id text c now ttl options s).1
                ≡ some (leased options (now + Option.get_or options.lease_ttl_ms ttl) d))
            × (docs (claim same_id text c now ttl options s).0
                ≡ before ++ leased options (now + Option.get_or options.lease_ttl_ms ttl) d ∷ after)
            × (accepts now options d ≡ true)
            × All (λ x. accepts now options x ≡ true → d.created_at ≤ x.created_at) (docs s))
  claim-eligible now ttl options s separate =
      elim (Option-cases (claim same_id text c now ttl options s).1) [
        | inl nothing ↦
            let (same, unmatched) = Updated-none (claim-Updated now ttl options s) nothing in
            inl (nothing, same, accepted now options (λ d b. b ≡ false) separate (docs s) unmatched)
        | inr (e, r) ↦
            let (before, after, d, old, new, is_taken, m, least) =
              Updated-some e (claim-Updated now ttl options s) r in
            inr (
              before,
              after,
              d,
              old,
              r ∙ ap some is_taken,
              new ∙ ap (λ x. before ++ x ∷ after) is_taken,
              sym (claim_filter-accepts now options d separate) ∙ m,
              accepted now options (λ x b. b ≡ true → d.created_at ≤ x.created_at) separate (docs s)
                  least,
            )
      ]

  -- A claim at a time when the lease of a document still runs.
  abbrev pub IsClaimDuring : ℕ → Call I J → Type 0
  IsClaimDuring until (Call.claim now ttl options) = (now ≤ until) × IsClean options
  IsClaimDuring until _ = ⊥

  not_free :
      (d : Entry I J) (until now : ℕ)
      → d.lease_expires_at ≡ some until
      → now ≤ until
      → is_lease_free now d ≢ true
  not_free d until now lease early free = ground arith

  IsOnly-take_lease :
      (e d : Entry I J) (until now : ℕ) (options : ClaimOptions I J) (end : ℕ)
      → e.lease_expires_at ≡ some until
      → now ≤ until
      → IsClean options
      → matches (claim_filter now options) d ≡ true
      → IsOnly (λ (x : Entry I J). x.id) e d
      → IsOnly (λ (x : Entry I J). x.id) e (take_lease options.lease_owner end d)
  IsOnly-take_lease e d until now options end lease early clean m only same =
      let (_, free) = claim_filter-eligible now options d clean.0 clean.1 m in
      let is_e = only same in
      absurd (not_free e until now lease early (subst (λ x. is_lease_free now x ≡ true) is_e free))

  during-IsOnly :
      (e : Entry I J) (until : ℕ) (calls : List (Call I J)) (s : Store)
      → e.lease_expires_at ≡ some until
      → All (IsClaimDuring until) calls
      → All (IsOnly (λ (x : Entry I J). x.id) e) (docs s)
      → All (IsOnly (λ (x : Entry I J). x.id) e) (docs (run same_id text c calls s))
  unfolding run step
  during-IsOnly e until [] s lease early h = h
  during-IsOnly e until (Call.claim now ttl options ∷ calls) s lease early h =
      let (in_time, clean) = early.0 in
      during-IsOnly e until calls (claim same_id text c now ttl options s).0 lease early.1 (
        Updated-All (IsOnly (λ (x : Entry I J). x.id) e) (claim-Updated now ttl options s)
          (λ d m only. IsOnly-take_lease e d until now options _ lease in_time clean m only) h)
  during-IsOnly e until (_ ∷ calls) s lease early h = absurd early.0

  -- Once a claim has taken a document, no claim made while its lease runs takes it again, whoever
  -- makes it and however many other claims come in between. Raw filters leave `status` and `$or`
  -- alone, and identifiers are unique.
  pub claim-exclusive :
      (now ttl : ℕ) (options : ClaimOptions I J) (s : Store) (e : Entry I J)
      (calls : List (Call I J)) (now' ttl' : ℕ) (options' : ClaimOptions I J) (e' : Entry I J)
      → IsUnique (λ (x : Entry I J). x.id) (docs s)
      → (claim same_id text c now ttl options s).1 ≡ some e
      → All (IsClaimDuring (now + Option.get_or options.lease_ttl_ms ttl)) calls
      → now' ≤ now + Option.get_or options.lease_ttl_ms ttl
      → IsClean options'
      → (claim same_id text c now' ttl' options'
          (run same_id text c calls (claim same_id text c now ttl options s).0)).1
        ≡ some e'
      → e'.id ≢ e.id
  claim-exclusive now ttl options s e calls now' ttl' options' e' unique r early early' clean' r'
        same =
      let id = λ (x : Entry I J). x.id in
      let s1 = (claim same_id text c now ttl options s).0 in
      let until = now + Option.get_or options.lease_ttl_ms ttl in
      let (before, after, d, old, new, is_taken, _, _) =
        Updated-some e (claim-Updated now ttl options s) r in
      let unique1 = Updated-IsUnique id (claim-Updated now ttl options s) (λ d. refl) unique in
      let only1 : All (IsOnly id e) (docs s1) =
        rw new (IsUnique-IsOnly id before after e (rw new at unique1)) in
      let lease : e.lease_expires_at ≡ some until =
        ap (λ (x : Entry I J). x.lease_expires_at) is_taken in
      let only2 = during-IsOnly e until calls s1 lease early only1 in
      let (before', after', d', old', new', is_taken', m, _) =
        Updated-some e' (claim-Updated now' ttl' options' (run same_id text c calls s1)) r' in
      let (_, only', _) = All-middle (IsOnly id e) before' d' after' (rw old' at only2) in
      let is_e = only' (sym (ap id is_taken') ∙ same) in
      let (_, free) = claim_filter-eligible now' options' d' clean'.0 clean'.1 m in
      not_free e until now' lease early' (subst (λ x. is_lease_free now' x ≡ true) is_e free)
