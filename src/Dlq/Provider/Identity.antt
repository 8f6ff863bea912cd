-- ===== src/Dlq/Provider/Identity.antt =====
-- Identifiers of the documents of `DLQProvider`, under its writes.
use datamaster.Prelude.{◌≡◌, refl, Bool, true, false, List, [], ◌∷◌, String}
use datamaster.Collection.{Collection}
use datamaster.Collection.Unique.{IsUnique, IsUnique-add, Updated-IsUnique, Deleted-IsUnique}
use datamaster.Dlq.Entry.{Entry}
use datamaster.Dlq.Provider.{
  push, claim, release, complete, requeue, discard, remove, transition_leased_entry, reset,
  new_entry,
}
use datamaster.Dlq.Provider.Calls.{Call, step, run}

module _ {I J : Type 0} (same_id : Discrete I) (text : String → J)
    (c : Collection (Entry I J) I (λ d. d.id)) where
  open c use {Store, docs, create_lem, find_one_and_update_lem, delete_one_lem}

  abbrev id_of : Entry I J → I
  id_of d = d.id

  reset-id : (b : Bool) (d : Entry I J) → (reset same_id text c b d).id ≡ d.id
  reset-id true d = refl
  reset-id false d = refl

  step-IsUnique :
      (call : Call I J) (s : Store)
      → IsUnique id_of (docs s)
      → IsUnique id_of (docs (step same_id text c call s))
  unfolding step push claim release complete requeue discard remove transition_leased_entry
  step-IsUnique (Call.push now input) s h =
      let (i, t, fresh, e, r) = create_lem (new_entry same_id text c now input) s in
      rw e (IsUnique-add id_of (docs s) (new_entry same_id text c now input i t) fresh h)
  step-IsUnique (Call.claim now ttl options) s h =
      Updated-IsUnique id_of (find_one_and_update_lem _ _ _ s) (λ d. refl) h
  step-IsUnique (Call.release id owner) s h =
      Updated-IsUnique id_of (find_one_and_update_lem _ _ _ s) (λ d. refl) h
  step-IsUnique (Call.complete id owner) s h =
      Updated-IsUnique id_of (find_one_and_update_lem _ _ _ s) (λ d. refl) h
  step-IsUnique (Call.fail now id owner error current) s h =
      Updated-IsUnique id_of (find_one_and_update_lem _ _ _ s) (λ d. refl) h
  step-IsUnique (Call.requeue id b) s h =
      Updated-IsUnique id_of (find_one_and_update_lem _ _ _ s) (λ d. reset-id b d) h
  step-IsUnique (Call.discard id reason) s h =
      Updated-IsUnique id_of (find_one_and_update_lem _ _ _ s) (λ d. refl) h
  step-IsUnique (Call.remove id) s h = Deleted-IsUnique id_of (delete_one_lem _ s) h

  -- Whatever clients do in whatever order, no two documents come to share an identifier.
  pub run-IsUnique :
      (calls : List (Call I J)) (s : Store)
      → IsUnique (λ (x : Entry I J). x.id) (docs s)
      → IsUnique (λ (x : Entry I J). x.id) (docs (run same_id text c calls s))
  unfolding run
  run-IsUnique [] s h = h
  run-IsUnique (call ∷ calls) s h =
      run-IsUnique calls (step same_id text c call s) (step-IsUnique call s h)
