-- ===== src/Dlq/Provider.antt =====
-- modules/dlq/dlq.provider.ts: `DLQProvider`, over a Mongoose model of its collection. A method
-- takes the time that `new Date()` reads, and returns the new state beside its result.
pub mod Claims
pub mod Leases
pub mod Filters
pub mod Accepted
pub mod Identity
pub mod Calls
pub mod Lifecycle
use datamaster.Prelude.{
  ℕ, ◌+◌, Bool, true, false, ◌&&◌, ◌||◌, Option, none, some, List, [], ◌∷◌, ◌++◌, String,
  String_discrete, ltb, leb, holds, ite, ◌==◌, if◌then◌else◌,
}
use mathlib.Core.Option
use datamaster.JsMap
use datamaster.Collection.{Collection}
use datamaster.Dlq.Entry.{
  Status, pending, claimed, failed, completed, discarded, ErrorInfo, Entry, PushInput,
}

pub data HttpError : Type 0 where
  not_found conflict : HttpError

pub data Result (A : Type 0) : Type 0 where
  ok : A → Result A
  throw : HttpError → Result A

-- A Mongo filter: a condition for each of its keys.
abbrev pub Filter : Type 0 → Type 0
Filter D = List (String × (D → Bool))

abbrev pub matches : {D : Type 0} → Filter D → D → Bool
matches [] d = true
matches ((key, condition) ∷ filter) d = condition d && matches filter d

-- `{ ...base, ...over }`: a key of `over` replaces that of `base`.
unfoldable pub spread : {D : Type 0} → Filter D → Filter D → Filter D
spread base [] = base
spread base ((key, condition) ∷ over) = spread (JsMap.set String_discrete key condition base) over

abbrev pub status_eq : Status → Status → Bool
status_eq pending pending = true
status_eq claimed claimed = true
status_eq failed failed = true
status_eq completed completed = true
status_eq discarded discarded = true
status_eq _ _ = false

abbrev pub has_status : {I J : Type 0} → Status → Entry I J → Bool
has_status status d = status_eq d.status status

abbrev pub owned_by : {I J : Type 0} → String → Entry I J → Bool
owned_by owner d = elim d.lease_owner [ none ↦ false | some o ↦ holds (String_discrete o owner) ]

-- `leaseExpiresAt` does not exist, or is before `now`.
abbrev pub is_lease_free : {I J : Type 0} → ℕ → Entry I J → Bool
is_lease_free now d = elim d.lease_expires_at [ none ↦ true | some t ↦ ltb t now ]

pub record ClaimOptions (I J : Type 0) : Type 0 where
  pub lease_owner : String
  pub lease_ttl_ms : Option ℕ
  pub process_type : Option String
  pub filter : Filter (Entry I J)

-- `value ? { key: value } : {}`, where the empty text counts as absent.
abbrev pub when_given : {D : Type 0} → Option String → (String → Filter D) → Filter D
when_given none f = []
when_given (some t) f = ite (String_discrete t "") [] (f t)

abbrev pub of_type : {I J : Type 0} → String → Filter (Entry I J)
of_type t = ("processType", λ d. holds (String_discrete d.process_type t)) ∷ []

abbrev pub eligible : {I J : Type 0} → ℕ → Filter (Entry I J)
eligible now =
    ("status", λ d. has_status pending d || has_status claimed d) ∷ ("$or", is_lease_free now) ∷ []

-- The filter of `claim`.
unfoldable pub claim_filter : {I J : Type 0} → ℕ → ClaimOptions I J → Filter (Entry I J)
claim_filter now options =
    spread (spread (eligible now) (when_given options.process_type of_type)) options.filter

-- The updates of the methods.
abbrev pub take_lease : {I J : Type 0} → String → ℕ → Entry I J → Entry I J
take_lease owner until d = record d {
  status = claimed;
  lease_owner = some owner;
  lease_expires_at = some until;
  attempts = d.attempts + 1;
}

abbrev pub drop_lease : {I J : Type 0} → Status → Entry I J → Entry I J
drop_lease status d = record d { status = status; lease_owner = none; lease_expires_at = none }

abbrev pub add_failure : {I J : Type 0} → ErrorInfo → ℕ → ℕ → Entry I J → Entry I J
add_failure error now attempt d = record d {
  error = error;
  error_history =
      d.error_history ++ record { info = error; occurred_at = now; attempt = attempt } ∷ [];
}

-- `current.maxAttempts && current.attempts >= current.maxAttempts`
abbrev pub is_exhausted : {I J : Type 0} → Entry I J → Bool
is_exhausted d = elim d.max_attempts [ none ↦ false | some n ↦ ltb 0 n && leb n d.attempts ]

pub record ListOptions (I J : Type 0) : Type 0 where
  pub process_type : Option String
  pub status : Option Status
  pub origin : Option String
  pub filter : Filter (Entry I J)

-- The filter of `list`: the raw filter, then the named fields over it.
unfoldable pub list_filter : {I J : Type 0} → ListOptions I J → Filter (Entry I J)
list_filter options =
    spread
      (spread (spread options.filter (when_given options.process_type of_type))
        (elim options.status [ none ↦ [] | some t ↦ ("status", has_status t) ∷ [] ]))
      (when_given options.origin (λ t. ("origin", λ d. holds (String_discrete d.origin t)) ∷ []))

module _ {I J : Type 0} (same_id : Discrete I) (text : String → J)
    (c : Collection (Entry I J) I (λ d. d.id)) where
  open c use {Store, create, find_one, find_one_and_update, delete_one}

  abbrev pub has_id : I → Entry I J → Bool
  has_id id d = holds (same_id d.id id)

  abbrev pub or_throw : {A : Type 0} → HttpError → Option A → Result A
  or_throw e none = throw e
  or_throw e (some a) = ok a

  -- The document that `push` creates, once the database has its identifier and time of creation.
  abbrev pub new_entry : ℕ → PushInput J → I → ℕ → Entry I J
  new_entry now input id created_at = record {
    id = id;
    process_type = input.process_type;
    origin = input.origin;
    process_id = input.process_id;
    payload = input.payload;
    error = input.error;
    error_history = record { info = input.error; occurred_at = now; attempt = 0 } ∷ [];
    attempts = 0;
    max_attempts = input.max_attempts;
    status = pending;
    lease_owner = none;
    lease_expires_at = none;
    metadata = input.metadata;
    created_at = created_at;
  }

  unfoldable pub push : ℕ → PushInput J → Store → Store × Entry I J
  push now input s = create (new_entry now input) s

  unfoldable pub get : I → Store → Result (Entry I J)
  get id s = or_throw not_found (find_one (has_id id) s)

  -- The second number is `defaultLeaseTtlMs()`.
  unfoldable pub claim : ℕ → ℕ → ClaimOptions I J → Store → Store × Option (Entry I J)
  claim now default_ttl options s =
      find_one_and_update (matches (claim_filter now options)) (λ d. d.created_at)
        (take_lease options.lease_owner (now + Option.get_or options.lease_ttl_ms default_ttl)) s

  abbrev pub lease_filter : I → String → Entry I J → Bool
  lease_filter id owner d = has_id id d && owned_by owner d && has_status claimed d

  unfoldable pub transition_leased_entry :
      I → String → (Entry I J → Entry I J) → Store → Store × Result (Entry I J)
  transition_leased_entry id owner update s =
      let (s', doc) = find_one_and_update (lease_filter id owner) (λ _. 0) update s in
      (s', or_throw conflict doc)

  unfoldable pub release : I → String → Store → Store × Result (Entry I J)
  release id owner = transition_leased_entry id owner (drop_lease pending)

  unfoldable pub complete : I → String → Store → Store × Result (Entry I J)
  complete id owner = transition_leased_entry id owner (drop_lease completed)

  -- The update of `fail`, from the document that it read.
  abbrev pub record_failure : ℕ → ErrorInfo → Entry I J → Entry I J → Entry I J
  record_failure now error current d =
      add_failure error now current.attempts
        (drop_lease (if is_exhausted current then failed else pending) d)

  -- `others` is what other clients write between the read and the write.
  unfoldable pub fail :
      ℕ → I → String → ErrorInfo → (Store → Store) → Store → Store × Result (Entry I J)
  fail now id owner error others s = elim (find_one (lease_filter id owner) s) [
    | none ↦ (s, throw conflict)
    | some current ↦ transition_leased_entry id owner (record_failure now error current) (others s)
  ]

  abbrev pub reset : Bool → Entry I J → Entry I J
  reset reset_attempts d = if reset_attempts then record d { attempts = 0 } else d

  unfoldable pub requeue : I → Bool → Store → Store × Result (Entry I J)
  requeue id reset_attempts s =
      let (s', doc) =
        find_one_and_update (has_id id) (λ _. 0) (λ d. drop_lease pending (reset reset_attempts d))
          s in
      (s', or_throw not_found doc)

  -- `'metadata.discardReason': reason`
  abbrev pub with_reason : Option String → List (String × J) → List (String × J)
  with_reason none metadata = metadata
  with_reason (some reason) metadata =
      ite (String_discrete reason "") metadata
        (JsMap.set String_discrete "discardReason" (text reason) metadata)

  abbrev pub note : Option String → Entry I J → Entry I J
  note reason d = record d { metadata = with_reason reason d.metadata }

  unfoldable pub discard : I → Option String → Store → Store × Result (Entry I J)
  discard id reason s =
      let (s', doc) =
        find_one_and_update (has_id id) (λ _. 0) (λ d. drop_lease discarded (note reason d)) s in
      (s', or_throw not_found doc)

  unfoldable pub remove : I → Store → Store × Result (Unit {0})
  remove id s =
      let (s', deleted_count) = delete_one (has_id id) s in
      (s', if deleted_count == 0 then throw not_found else ok tt)
