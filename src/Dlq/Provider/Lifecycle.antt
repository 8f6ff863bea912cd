-- ===== src/Dlq/Provider/Lifecycle.antt =====
-- The documents of `DLQProvider` stay well formed under every operation, however the calls of
-- several clients interleave.
use datamaster.Prelude.{
  ◌≡◌, ◌≢◌, refl, ℕ, Bool, true, false, Option, none, some, List, [], ◌∷◌, ◌++◌, String, arith, All,
  All-append, is_some, if◌then◌else◌,
}
use datamaster.Collection.{Collection, Updated-All, Deleted-All}
use datamaster.Dlq.Entry.{
  Entry, Status, pending, claimed, failed, completed, discarded, ErrorInfo, ErrorHistoryEntry,
  PushInput,
}
use datamaster.Dlq.Provider.{
  push, claim, release, complete, requeue, discard, remove, transition_leased_entry, take_lease,
  drop_lease, add_failure, note, reset, new_entry, is_exhausted,
}
use datamaster.Dlq.Provider.Calls.{Call, step, run}

pub last_error : List ErrorHistoryEntry → Option ErrorInfo
last_error [] = none
last_error (h ∷ []) = some h.info
last_error (h ∷ h' ∷ t) = last_error (h' ∷ t)

last_error-append :
    (l : List ErrorHistoryEntry) (h : ErrorHistoryEntry) → last_error (l ++ h ∷ []) ≡ some h.info
unfolding last_error
last_error-append [] h = refl
last_error-append (x ∷ []) h = refl
last_error-append (x ∷ y ∷ l) h = last_error-append (y ∷ l) h

-- A document has a lease, with its owner and its end, exactly while it is claimed; and its error is
-- the last one of its history.
pub record IsWellFormed {I J : Type 0} (d : Entry I J) : Type 0 where
  pub leased :
      d.status ≡ claimed → (is_some d.lease_owner ≡ true) × (is_some d.lease_expires_at ≡ true)
  pub unleased : d.status ≢ claimed → (d.lease_owner ≡ none) × (d.lease_expires_at ≡ none)
  pub recorded : last_error d.error_history ≡ some d.error

module _ {I J : Type 0} where
  take_lease-IsWellFormed :
      (owner : String) (until : ℕ) (d : Entry I J)
      → IsWellFormed d
      → IsWellFormed (take_lease owner until d)
  take_lease-IsWellFormed owner until d h = ground arith

  drop_lease-IsWellFormed :
      (status : Status) (d : Entry I J)
      → status ≢ claimed
      → last_error d.error_history ≡ some d.error
      → IsWellFormed (drop_lease status d)
  drop_lease-IsWellFormed status d ne e = ground arith

  record_failure_recorded :
      (error : ErrorInfo) (now attempt : ℕ) (status : Status) (d : Entry I J)
      → status ≢ claimed
      → IsWellFormed (add_failure error now attempt (drop_lease status d))
  record_failure_recorded error now attempt status d ne = ground (
    arith,
    last_error-append d.error_history
        (record { info = error; occurred_at = now; attempt = attempt }),
  )

module _ {I J : Type 0} (same_id : Discrete I) (text : String → J)
    (c : Collection (Entry I J) I (λ d. d.id)) where
  open c use {Store, docs, create_lem, find_one_and_update_lem, delete_one_lem}

  reset_recorded :
      (b : Bool) (d : Entry I J)
      → IsWellFormed d
      → IsWellFormed (drop_lease pending (reset same_id text c b d))
  reset_recorded b d h = ground arith

  note_recorded :
      (reason : Option String) (d : Entry I J)
      → IsWellFormed d
      → IsWellFormed (drop_lease discarded (note same_id text c reason d))
  note_recorded reason d h = ground arith

  failed_or_pending : (b : Bool) → (if b then failed else pending) ≢ claimed
  failed_or_pending true e = cc
  failed_or_pending false e = cc

  new_entry-IsWellFormed :
      (now : ℕ) (input : PushInput J) (id : I) (t : ℕ)
      → IsWellFormed (new_entry same_id text c now input id t)
  unfolding last_error
  new_entry-IsWellFormed now input id t = ground arith

  transition-IsWellFormed :
      (id : I) (owner : String) (update : Entry I J → Entry I J) (s : Store)
      → ((d : Entry I J) → IsWellFormed d → IsWellFormed (update d))
      → All IsWellFormed (docs s)
      → All IsWellFormed (docs (transition_leased_entry same_id text c id owner update s).0)
  unfolding transition_leased_entry
  transition-IsWellFormed id owner update s keep h =
      Updated-All IsWellFormed (find_one_and_update_lem _ _ update s) (λ d _ w. keep d w) h

  step-IsWellFormed :
      (call : Call I J) (s : Store)
      → All IsWellFormed (docs s)
      → All IsWellFormed (docs (step same_id text c call s))
  unfolding step push claim release complete requeue discard remove
  step-IsWellFormed (Call.push now input) s h =
      let (i, t, fresh, e, r) = create_lem (new_entry same_id text c now input) s in
      rw e (
        All-append IsWellFormed (docs s) (new_entry same_id text c now input i t ∷ []) h
          (new_entry-IsWellFormed now input i t, tt))
  step-IsWellFormed (Call.claim now ttl options) s h =
      Updated-All IsWellFormed (find_one_and_update_lem _ _ _ s)
        (λ d _ w. take_lease-IsWellFormed options.lease_owner _ d w) h
  step-IsWellFormed (Call.release id owner) s h =
      transition-IsWellFormed id owner _ s
        (λ d w. drop_lease-IsWellFormed pending d (λ e. cc) w.recorded) h
  step-IsWellFormed (Call.complete id owner) s h =
      transition-IsWellFormed id owner _ s
        (λ d w. drop_lease-IsWellFormed completed d (λ e. cc) w.recorded) h
  step-IsWellFormed (Call.fail now id owner error current) s h =
      transition-IsWellFormed id owner _ s
        (λ d w.
          record_failure_recorded error now current.attempts _ d
            (failed_or_pending (is_exhausted current)))
        h
  step-IsWellFormed (Call.requeue id b) s h =
      Updated-All IsWellFormed (find_one_and_update_lem _ _ _ s) (λ d _ w. reset_recorded b d w) h
  step-IsWellFormed (Call.discard id reason) s h =
      Updated-All IsWellFormed (find_one_and_update_lem _ _ _ s) (λ d _ w. note_recorded reason d w)
        h
  step-IsWellFormed (Call.remove id) s h = Deleted-All IsWellFormed (delete_one_lem _ s) h

  -- Whatever clients do in whatever order, from well-formed documents (an empty collection, say):
  -- a document has a lease exactly while it is claimed, and its error is the last of its history.
  pub run-IsWellFormed :
      (calls : List (Call I J)) (s : Store)
      → All IsWellFormed (docs s)
      → All IsWellFormed (docs (run same_id text c calls s))
  unfolding run
  run-IsWellFormed [] s h = h
  run-IsWellFormed (call ∷ calls) s h =
      run-IsWellFormed calls (step same_id text c call s) (step-IsWellFormed call s h)
