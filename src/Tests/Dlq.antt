-- ===== src/Tests/Dlq.antt =====
-- `DLQProvider` on small inputs, over a list of documents whose identifiers are numbers.
use datamaster.Prelude.{
  ℕ, ◌≤◌, ◌≡◌, ◌≢◌, ◌⊎◌, refl, ap, true, false, none, some, List, [], ◌∷◌, ◌++◌, String,
  String_discrete, ℕ_discrete, arith, All,
}
use datamaster.JsMap
use datamaster.Collection.{Collection}
use datamaster.Collection.Unique.{IsUnique}
use datamaster.Dlq.Entry.{Entry, ErrorInfo, PushInput, pending, claimed}
use datamaster.Dlq.Provider
use datamaster.Dlq.Provider.{
  ClaimOptions, claim, fail, ok, transition_leased_entry, drop_lease, add_failure, is_exhausted,
  is_lease_free, matches, claim_filter, throw, conflict, lease_filter,
}
use datamaster.Dlq.Provider.Calls.{Call, run}
use datamaster.Dlq.Provider.Lifecycle.{IsWellFormed, run-IsWellFormed}
use datamaster.Dlq.Provider.Accepted.{accepts}
use datamaster.Dlq.Provider.Claims.{leased, claim-eligible, claim-exclusive}
use datamaster.Dlq.Provider.Leases.{IsHeld, transition-fenced, FailOutcome, fail-outcome}
use datamaster.Tests.ListStore
use datamaster.Tests.ListStore.{list_store}

abbrev id_of : Entry ℕ ℕ → ℕ
id_of d = d.id

abbrev text : String → ℕ
text _ = 0

abbrev store : Collection (Entry ℕ ℕ) ℕ (λ d. d.id)
store = list_store (λ (d : Entry ℕ ℕ). d.id)

abbrev error : ErrorInfo
error = record { name = "Error"; message = "refused"; stack = none }

abbrev input : PushInput ℕ
input = record {
  process_type = "mail";
  origin = "api";
  process_id = none;
  payload = 5;
  error = error;
  max_attempts = some 2;
  metadata = [];
}

abbrev options : ClaimOptions ℕ ℕ
options = record {
  lease_owner = "a";
  lease_ttl_ms = some 50;
  process_type = some "mail";
  filter = [];
}

abbrev waiting : Entry ℕ ℕ
waiting = record {
  id = 1;
  process_type = "mail";
  origin = "api";
  process_id = none;
  payload = 5;
  error = error;
  error_history = record { info = error; occurred_at = 10; attempt = 0 } ∷ [];
  attempts = 0;
  max_attempts = some 2;
  status = pending;
  lease_owner = none;
  lease_expires_at = none;
  metadata = [];
  created_at = 10;
}

abbrev taken : Entry ℕ ℕ
taken = record waiting {
  status = claimed;
  lease_owner = some "a";
  lease_expires_at = some 150;
  attempts = 1;
}

-- The second document, pushed later.
abbrev second : Entry ℕ ℕ
second = record waiting { id = 2; created_at = 20 }

-- The documents, as the interface sees them.
documents : List (Entry ℕ ℕ) → Collection.Store store
unfolding list_store
documents ds = ds

-- A claim takes the older document.
claims :
    claim ℕ_discrete text store 100 30000 options (documents (waiting ∷ second ∷ []))
    ≡ (documents (taken ∷ second ∷ []), some taken)
unfolding documents list_store claim claim_filter Provider.spread JsMap.set String_discrete
    ListStore.update_in ListStore.pick
claims = refl

claim-eligible_example :
    (((claim ℕ_discrete text store 100 30000 options (documents (waiting ∷ second ∷ []))).1 ≡ none)
      × (Collection.docs store
            (claim ℕ_discrete text store 100 30000 options (documents (waiting ∷ second ∷ []))).0
          ≡ Collection.docs store (documents (waiting ∷ second ∷ [])))
      × All
          (λ d. accepts 100 options d ≡ false)
          (Collection.docs store (documents (waiting ∷ second ∷ []))))
    ⊎ ((before : List (Entry ℕ ℕ)) × (after : List (Entry ℕ ℕ)) × (d : Entry ℕ ℕ) × (Collection.docs
            store
            (documents (waiting ∷ second ∷ []))
          ≡ before ++ d ∷ after)
        × ((claim ℕ_discrete text store 100 30000 options (documents (waiting ∷ second ∷ []))).1
            ≡ some (leased ℕ_discrete text store options 150 d))
        × (Collection.docs store
              (claim ℕ_discrete text store 100 30000 options (documents (waiting ∷ second ∷ []))).0
            ≡ before ++ leased ℕ_discrete text store options 150 d ∷ after)
        × (accepts 100 options d ≡ true)
        × All
            (λ x. accepts 100 options x ≡ true → d.created_at ≤ x.created_at)
            (Collection.docs store (documents (waiting ∷ second ∷ []))))
claim-eligible_example =
    claim-eligible ℕ_discrete text store 100 30000 options (documents (waiting ∷ second ∷ []))
      (tt, tt, tt, tt)

both-IsUnique : IsUnique id_of (Collection.docs store (documents (waiting ∷ second ∷ [])))
unfolding documents list_store
both-IsUnique = (((λ e. omega arith), tt), (tt, tt))

abbrev other_type : ClaimOptions ℕ ℕ
other_type = record {
  lease_owner = "b";
  lease_ttl_ms = none;
  process_type = some "text";
  filter = [];
}

abbrev by_b : ClaimOptions ℕ ℕ
by_b = record { lease_owner = "b"; lease_ttl_ms = none; process_type = none; filter = [] }

abbrev second_taken : Entry ℕ ℕ
second_taken = record second {
  status = claimed;
  lease_owner = some "b";
  lease_expires_at = some 30130;
  attempts = 1;
}

second-claim :
    (claim ℕ_discrete text store 130 30000 by_b (
      run ℕ_discrete text store
        (Call.claim 110 30000 other_type ∷ [])
        (claim ℕ_discrete text store 100 30000 options (documents (waiting ∷ second ∷ []))).0)).1
    ≡ some second_taken
unfolding documents list_store claim claim_filter Provider.spread JsMap.set String_discrete
    ListStore.update_in ListStore.pick run Provider.Calls.step
second-claim = refl

claim-exclusive_example : second_taken.id ≢ taken.id
claim-exclusive_example =
    claim-exclusive ℕ_discrete text store 100 30000 options (documents (waiting ∷ second ∷ []))
      taken (Call.claim 110 30000 other_type ∷ []) 130 30000 by_b second_taken both-IsUnique
      (ap (λ x. x.1) claims) (((omega arith), (tt, tt)), tt) (omega arith) (tt, tt) second-claim

abbrev calls : List (Call ℕ ℕ)
calls =
    Call.push 10 input
    ∷ Call.claim 100 30000 options
    ∷ Call.fail 120 1 "a" error taken
    ∷ Call.discard 1 (some "spam")
    ∷ []

none-IsWellFormed : All IsWellFormed (Collection.docs store (documents []))
unfolding documents list_store
none-IsWellFormed = tt

none-IsUnique : IsUnique id_of (Collection.docs store (documents []))
unfolding documents list_store
none-IsUnique = tt

run-IsWellFormed_example :
    All IsWellFormed (Collection.docs store (run ℕ_discrete text store calls (documents [])))
run-IsWellFormed_example =
    run-IsWellFormed ℕ_discrete text store calls (documents []) none-IsWellFormed

transition-fenced_example :
    (((transition_leased_entry ℕ_discrete text store 1 "a"
          (drop_lease pending)
          (documents (taken ∷ []))).1
        ≡ throw conflict)
      × (Collection.docs store
            (transition_leased_entry ℕ_discrete text store 1 "a"
              (drop_lease pending)
              (documents (taken ∷ []))).0
          ≡ Collection.docs store (documents (taken ∷ [])))
      × All
          (λ d. lease_filter ℕ_discrete text store 1 "a" d ≡ false)
          (Collection.docs store (documents (taken ∷ []))))
    ⊎ ((before : List (Entry ℕ ℕ)) × (after : List (Entry ℕ ℕ)) × (d : Entry ℕ ℕ) × (Collection.docs
            store
            (documents (taken ∷ []))
          ≡ before ++ d ∷ after)
        × (Collection.docs store
              (transition_leased_entry ℕ_discrete text store 1 "a"
                (drop_lease pending)
                (documents (taken ∷ []))).0
            ≡ before ++ drop_lease pending d ∷ after)
        × ((transition_leased_entry ℕ_discrete text store 1 "a"
              (drop_lease pending)
              (documents (taken ∷ []))).1
            ≡ ok (drop_lease pending d))
        × IsHeld 1 "a" d)
transition-fenced_example =
    transition-fenced ℕ_discrete text store 1 "a" (drop_lease pending) (documents (taken ∷ []))

-- The first failure of two allowed.
abbrev failed_once : Entry ℕ ℕ
failed_once = add_failure error 120 1 (drop_lease pending taken)

fails :
    (fail ℕ_discrete text store 120 1 "a" error (λ s. s) (documents (taken ∷ []))).1
    ≡ ok failed_once
unfolding documents list_store fail transition_leased_entry String_discrete ListStore.update_in
    ListStore.find_in ListStore.pick ℕ_discrete
fails = refl

one-IsUnique : IsUnique id_of (Collection.docs store (documents (taken ∷ [])))
unfolding documents list_store
one-IsUnique = (tt, tt)

fail-outcome_example :
    FailOutcome ℕ_discrete text store 120 1 "a" error
      (documents (taken ∷ []))
      (fail ℕ_discrete text store 120 1 "a" error (λ s. s) (documents (taken ∷ [])))
fail-outcome_example =
    fail-outcome ℕ_discrete text store 120 1 "a" error (documents (taken ∷ [])) one-IsUnique
