-- ===== src/Dlq/Provider/Calls.antt =====
-- modules/dlq/dlq.provider.ts: the writes of several clients of `DLQProvider`, interleaved.
use datamaster.Prelude.{ℕ, Bool, Option, List, [], ◌∷◌, String}
use datamaster.Collection.{Collection}
use datamaster.Dlq.Entry.{Entry, ErrorInfo, PushInput}
use datamaster.Dlq.Provider
use datamaster.Dlq.Provider.{ClaimOptions, record_failure}

-- A write. That of `fail` comes with the document that the call read some time before.
pub data Call (I J : Type 0) : Type 0 where
  push : ℕ → PushInput J → Call I J
  claim : ℕ → ℕ → ClaimOptions I J → Call I J
  release : I → String → Call I J
  complete : I → String → Call I J
  fail : ℕ → I → String → ErrorInfo → Entry I J → Call I J
  requeue : I → Bool → Call I J
  discard : I → Option String → Call I J
  remove : I → Call I J

module _ {I J : Type 0} (same_id : Discrete I) (text : String → J)
    (c : Collection (Entry I J) I (λ d. d.id)) where
  open c use {Store}

  unfoldable pub step : Call I J → Store → Store
  step (Call.push now input) s = (Provider.push same_id text c now input s).0
  step (Call.claim now ttl options) s = (Provider.claim same_id text c now ttl options s).0
  step (Call.release id owner) s = (Provider.release same_id text c id owner s).0
  step (Call.complete id owner) s = (Provider.complete same_id text c id owner s).0
  step (Call.fail now id owner error current) s =
      (Provider.transition_leased_entry same_id text c id owner
        (record_failure same_id text c now error current) s).0
  step (Call.requeue id reset_attempts) s = (Provider.requeue same_id text c id reset_attempts s).0
  step (Call.discard id reason) s = (Provider.discard same_id text c id reason s).0
  step (Call.remove id) s = (Provider.remove same_id text c id s).0

  unfoldable pub run : List (Call I J) → Store → Store
  run [] s = s
  run (call ∷ calls) s = run calls (step call s)
