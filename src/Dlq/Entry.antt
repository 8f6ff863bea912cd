-- ===== src/Dlq/Entry.antt =====
-- modules/dlq/dlq.typings.ts and dlq.model.ts: the documents of the queue and their settings.
use datamaster.Prelude.{ℕ, Option, none, some, List, String, ltb, if◌then◌else◌}
use mathlib.Core.Option

pub data Status : Type 0 where
  pending claimed failed completed discarded : Status

pub record ErrorInfo : Type 0 where
  pub name : String
  pub message : String
  pub stack : Option String

pub record ErrorHistoryEntry : Type 0 where
  pub info : ErrorInfo
  pub occurred_at : ℕ
  pub attempt : ℕ

-- A document. `I` is the type of its identifier, `J` that of free-form values; dates are
-- milliseconds.
pub record Entry (I J : Type 0) : Type 0 where
  pub id : I
  pub process_type : String
  pub origin : String
  pub process_id : Option String
  pub payload : J
  pub error : ErrorInfo
  pub error_history : List ErrorHistoryEntry
  pub attempts : ℕ
  pub max_attempts : Option ℕ
  pub status : Status
  pub lease_owner : Option String
  pub lease_expires_at : Option ℕ
  pub metadata : List (String × J)
  pub created_at : ℕ

pub record PushInput (J : Type 0) : Type 0 where
  pub process_type : String
  pub origin : String
  pub process_id : Option String
  pub payload : J
  pub error : ErrorInfo
  pub max_attempts : Option ℕ
  pub metadata : List (String × J)

-- `defaultLeaseTtlMs`: the environment variable as `Number` reads it (`none` where it is unset or
-- not finite), then the registered default, then 30 seconds.
unfoldable pub default_lease_ttl_ms : Option ℕ → Option ℕ → ℕ
default_lease_ttl_ms from_env registered = elim from_env [
  | none ↦ Option.get_or registered 30000
  | some parsed ↦ if ltb 0 parsed then parsed else Option.get_or registered 30000
]
