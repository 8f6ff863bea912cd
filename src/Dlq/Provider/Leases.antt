-- ===== src/Dlq/Provider/Leases.antt =====
-- The transitions of `DLQProvider` that a lease guards: `release`, `complete` and `fail`.
use datamaster.Prelude.{
  ℕ, ◌≡◌, ◌⊎◌, refl, sym, ap, ◌∙◌, Bool, true, false, ◌&&◌, ltb, leb, [], Option, none, some, List,
  ◌∷◌, ◌++◌, String, String_discrete, arith, All, All-middle, holds, Option-cases, inl, inr,
  if◌then◌else◌,
}
use mathlib.Core.Path.{subst}
use datamaster.Collection.{Collection, Updated, Updated-some, Updated-none, Found, missing, found}
use datamaster.Collection.Unique.{IsUnique, IsOnly, IsUnique-IsOnly}
use datamaster.Dlq.Entry.{Entry, ErrorInfo, pending, claimed, failed}
use datamaster.Dlq.Provider.{
  Result, ok, throw, conflict, lease_filter, transition_leased_entry, fail, record_failure,
  add_failure, drop_lease, or_throw,
}

holds_of : {P : Type 0} (d : Dec P) → holds d ≡ true → P
holds_of (yes p) e = p
holds_of (no p) e = cc

owner_of :
    (o : Option String) (owner : String)
    → elim o [ none ↦ false | some x ↦ holds (String_discrete x owner) ] ≡ true
    → o ≡ some owner
owner_of none owner e = cc
owner_of (some x) owner e = ap some (holds_of (String_discrete x owner) e)

-- The document is claimed by the owner.
pub record IsHeld {I J : Type 0} (id : I) (owner : String) (d : Entry I J) : Type 0 where
  pub identified : d.id ≡ id
  pub claimed_now : d.status ≡ claimed
  pub owned : d.lease_owner ≡ some owner

module _ {I J : Type 0} (same_id : Discrete I) (text : String → J)
    (c : Collection (Entry I J) I (λ d. d.id)) where
  open c use {Store, docs, find_one, find_one_lem, find_one_and_update_lem}

  lease_filter-IsHeld :
      (id : I) (owner : String) (d : Entry I J)
      → lease_filter same_id text c id owner d ≡ true
      → IsHeld id owner d
  lease_filter-IsHeld id owner d h = record {
    identified = holds_of (same_id d.id id) (ground arith);
    claimed_now = ground arith;
    owned = owner_of d.lease_owner owner (ground arith);
  }

  transition-Updated :
      (id : I) (owner : String) (update : Entry I J → Entry I J) (s : Store)
      → (r : Option (Entry I J)) × Updated
          (lease_filter same_id text c id owner)
          (λ _. 0)
          update
          (docs s)
          (docs (transition_leased_entry same_id text c id owner update s).0)
          r
        × ((transition_leased_entry same_id text c id owner update s).1
            ≡ or_throw same_id text c conflict r)
  unfolding transition_leased_entry
  transition-Updated id owner update s = (_, find_one_and_update_lem _ _ update s, refl)

  -- A lease-fenced transition (`release`, `complete` and the write of `fail`): either no document
  -- of that identifier is claimed by that owner, then it throws CONFLICT and nothing changes; or
  -- one is, then that document alone is updated, and returned.
  pub transition-fenced :
      (id : I) (owner : String) (update : Entry I J → Entry I J) (s : Store)
      → (((transition_leased_entry same_id text c id owner update s).1 ≡ throw conflict)
          × (docs (transition_leased_entry same_id text c id owner update s).0 ≡ docs s)
          × All (λ d. lease_filter same_id text c id owner d ≡ false) (docs s))
        ⊎ ((before : List (Entry I J)) × (after : List (Entry I J)) × (d : Entry I J) × (docs s
              ≡ before ++ d ∷ after)
            × (docs (transition_leased_entry same_id text c id owner update s).0
                ≡ before ++ update d ∷ after)
            × ((transition_leased_entry same_id text c id owner update s).1 ≡ ok (update d))
            × IsHeld id owner d)
  transition-fenced id owner update s =
      let (r, u, e) = transition-Updated id owner update s in
      elim (Option-cases r) [
        | inl nothing ↦
            let (same, all) = Updated-none u nothing in
            inl (e ∙ ap (or_throw same_id text c conflict) nothing, same, all)
        | inr (d', something) ↦
            let (before, after, d, old, new, is_d, m, _) = Updated-some d' u something in
            inr (
              before,
              after,
              d,
              old,
              rw (← is_d) new,
              e ∙ ap (or_throw same_id text c conflict) something ∙ ap ok is_d,
              lease_filter-IsHeld id owner d m,
            )
      ]

  Found-IsOnly :
      (id : I) (owner : String) (s : Store) (current : Entry I J)
      → IsUnique (λ (x : Entry I J). x.id) (docs s)
      → find_one (lease_filter same_id text c id owner) s ≡ some current
      → (current.id ≡ id) × All (IsOnly (λ (x : Entry I J). x.id) current) (docs s)
  Found-IsOnly id owner s current unique r =
      go (find_one_lem (lease_filter same_id text c id owner) s)
    where
      go :
          Found
            (lease_filter same_id text c id owner)
            (docs s)
            (find_one (lease_filter same_id text c id owner) s)
          → (current.id ≡ id) × All (IsOnly (λ (x : Entry I J). x.id) current) (docs s)
      go (missing _ e) = absurd (cc)
      go (found before after d e m e') =
          let is_d : d ≡ current = cc in
          let held = lease_filter-IsHeld id owner d m in
          (
            ap (λ (x : Entry I J). x.id) (sym is_d) ∙ held.identified,
            subst (λ x. All (IsOnly (λ (x : Entry I J). x.id) x) (docs s)) is_d
                (rw e (IsUnique-IsOnly (λ (x : Entry I J). x.id) before after d (rw e at unique))),
          )

  fail-none :
      (now : ℕ) (id : I) (owner : String) (error : ErrorInfo) (others : Store → Store) (s : Store)
      → find_one (lease_filter same_id text c id owner) s ≡ none
      → fail same_id text c now id owner error others s ≡ (s, throw conflict)
  unfolding fail
  fail-none now id owner error others s nothing = rw (nothing, fail) refl

  fail-some :
      (now : ℕ) (id : I) (owner : String) (error : ErrorInfo) (others : Store → Store) (s : Store)
      (current : Entry I J)
      → find_one (lease_filter same_id text c id owner) s ≡ some current
      → fail same_id text c now id owner error others s
        ≡ transition_leased_entry same_id text c id owner
            (record_failure same_id text c now error current)
            (others s)
  unfolding fail
  fail-some now id owner error others s current something = rw (something, fail) refl

  found-All :
      (filter : Entry I J → Bool) (s : Store) (current : Entry I J)
      → find_one filter s ≡ some current
      → ¬ All (λ d. filter d ≡ false) (docs s)
  found-All filter s current r all = go (find_one_lem filter s)
    where
      go : Found filter (docs s) (find_one filter s) → ⊥
      go (missing _ e) = absurd (cc)
      go (found before after d e m e') =
          let (_, here, _) = All-middle (λ x. filter x ≡ false) before d after (rw e at all) in
          absurd (cc)

  missing-All :
      (filter : Entry I J → Bool) (s : Store)
      → find_one filter s ≡ none
      → All (λ d. filter d ≡ false) (docs s)
  missing-All filter s r = go (find_one_lem filter s)
    where
      go : Found filter (docs s) (find_one filter s) → All (λ d. filter d ≡ false) (docs s)
      go (missing all e) = all
      go (found before after d e m e') = absurd (cc)

  -- The document after a failure, with its error and its time.
  abbrev pub failed_entry : ℕ → ErrorInfo → Entry I J → Entry I J
  failed_entry now error d = record d {
    error = error;
    error_history =
        d.error_history ++ record { info = error; occurred_at = now; attempt = d.attempts } ∷ [];
    status = elim d.max_attempts [
      | none ↦ pending
      | some n ↦ if ltb 0 n && leb n d.attempts then failed else pending
    ];
    lease_owner = none;
    lease_expires_at = none;
  }

  failed_entry-record_failure :
      (now : ℕ) (error : ErrorInfo) (d : Entry I J)
      → record_failure same_id text c now error d d ≡ failed_entry now error d
  failed_entry-record_failure now error d =
      ap (λ status. add_failure error now d.attempts (drop_lease {I = I} {J = J} status d))
        (status_of d.max_attempts)
    where
      status_of :
          (o : Option ℕ)
          → (if elim o [ none ↦ false | some n ↦ ltb 0 n && leb n d.attempts ]
              then failed
              else pending)
            ≡ elim o [
              | none ↦ pending
              | some n ↦ if ltb 0 n && leb n d.attempts then failed else pending
            ]
      status_of none = refl
      status_of (some n) = refl

  -- No document is held, then nothing has changed; or the one that is has the failure.
  abbrev pub FailOutcome : ℕ → I → String → ErrorInfo → Store → Store × Result (Entry I J) → Type 0
  FailOutcome now id owner error s r =
      ((r.1 ≡ throw conflict)
        × (docs r.0 ≡ docs s)
        × All (λ d. lease_filter same_id text c id owner d ≡ false) (docs s))
      ⊎ ((before : List (Entry I J)) × (after : List (Entry I J)) × (d : Entry I J) × (docs s
            ≡ before ++ d ∷ after)
          × (docs r.0 ≡ before ++ failed_entry now error d ∷ after)
          × (r.1 ≡ ok (failed_entry now error d))
          × IsHeld id owner d)

  transition-FailOutcome :
      (now : ℕ) (id : I) (owner : String) (error : ErrorInfo) (s : Store) (current : Entry I J)
      → find_one (lease_filter same_id text c id owner) s ≡ some current
      → (current.id ≡ id)
      → All (IsOnly (λ (x : Entry I J). x.id) current) (docs s)
      → FailOutcome now id owner error s (
          transition_leased_entry same_id text c id owner
            (record_failure same_id text c now error current)
            s)
  transition-FailOutcome now id owner error s current there named only =
      elim (transition-fenced id owner (record_failure same_id text c now error current) s) [
        | inl (_, _, unheld) ↦
            absurd (found-All (lease_filter same_id text c id owner) s current there unheld)
        | inr (before, after, d, old, new, returned, held) ↦
            let (_, here, _) =
              All-middle (IsOnly (λ (x : Entry I J). x.id) current) before d after
                (rw old at only) in
            let is_current : d ≡ current = here (held.identified ∙ sym named) in
            let same =
              ap (λ x. record_failure same_id text c now error x d) (sym is_current)
              ∙ failed_entry-record_failure now error d in
            inr (
              before,
              after,
              d,
              old,
              new ∙ ap (λ x. before ++ x ∷ after) same,
              returned ∙ ap ok same,
              held,
            )
      ]

  -- `fail`, with unique identifiers and nothing written between its read and its write: either no
  -- document of that identifier is claimed by that owner, then it throws CONFLICT and nothing
  -- changes; or one is, then that document alone gets the failure and is returned: the error becomes
  -- the current one and the last of the history, the lease is dropped, and the status is 'failed' if
  -- `maxAttempts` is set and reached, and 'pending' if not.
  pub fail-outcome :
      (now : ℕ) (id : I) (owner : String) (error : ErrorInfo) (s : Store)
      → IsUnique (λ (x : Entry I J). x.id) (docs s)
      → FailOutcome now id owner error s (fail same_id text c now id owner error (λ s'. s') s)
  fail-outcome now id owner error s unique =
      elim (Option-cases (find_one (lease_filter same_id text c id owner) s)) [
        | inl nothing ↦
            let same = fail-none now id owner error (λ s'. s') s nothing in
            inl (
              ap (λ x. x.1) same,
              ap (λ x. docs x.0) same,
              missing-All (lease_filter same_id text c id owner) s nothing,
            )
        | inr (current, something) ↦
            let (named, only) = Found-IsOnly id owner s current unique something in
            subst (FailOutcome now id owner error s)
              (sym (fail-some now id owner error (λ s'. s') s current something))
              (transition-FailOutcome now id owner error s current something named only)
      ]
