-- ===== src/Cache/Retries.antt =====
-- modules/cache/providers/redis/connector/retries.ts: one call of `execWithRetry`, as the events
-- that it waits for happen.
pub mod Executions
use datamaster.Prelude.{
  ℕ, zero, suc, ◌+◌, ◌-◌, Bool, true, false, ◌||◌, Option, none, some, List, [], ◌∷◌, leb,
  if◌then◌else◌,
}

pub data Phase : Type 0 where
  -- The command races against its timeout.
  racing : Phase
  -- The retry interval runs.
  resting : Phase
  returned failed : Phase

-- `waiting` counts the runs of `ensureReadyFn` that await `isReady`, be it that their race is over;
-- `executed` the runs of the command itself.
pub record Call : Type 0 where
  pub attempt : ℕ
  pub waiting : ℕ
  pub executed : ℕ
  pub phase : Phase

pub data Event : Type 0 where
  -- `isReady` resolves, and the command succeeds or throws.
  ready : Bool → Event
  -- `isReady` rejects; the flag tells the code `REDIS_CONNECTION_TIMEOUT`.
  not_ready : Bool → Event
  -- `commandTimeout` is over, or `commandRetryInterval`, with `connected` as it is by then.
  timed_out : Event
  rested : Bool → Event

-- The parameter is `maxCommandRetries`.
module _ (max_command_retries : ℕ) where
  -- The `catch` block.
  unfoldable pub caught : Bool → Call → Call
  caught connection_timeout c =
      if leb (max_command_retries - 1) c.attempt || connection_timeout
      then record c { phase = failed }
      else record c { phase = resting }

  -- How the race ends.
  unfoldable pub settled : Phase → Option Bool → Call → Call
  settled racing none c = record c { phase = returned }
  settled racing (some connection_timeout) c = caught connection_timeout c
  settled _ result c = c

  abbrev pub result_of : Bool → Option Bool
  result_of true = none
  result_of false = some false

  -- A run of `execWithRetry` from its first line on, for `fn` that runs the command.
  unfoldable pub start : Bool → Call → Call
  start true c = record c { executed = c.executed + 1; phase = returned }
  start false c = record c { waiting = c.waiting + 1; phase = racing }

  unfoldable pub retry : Phase → Bool → Call → Call
  unfolding start
  retry resting connected c = start connected (record c { attempt = c.attempt + 1 })
  retry _ connected c = c

  unfoldable pub step : Event → Call → Call
  unfolding settled retry
  step (ready succeeds) c =
      settled c.phase (result_of succeeds)
        (record c { executed = c.executed + c.waiting; waiting = 0 })
  step (not_ready connection_timeout) c =
      settled c.phase (some connection_timeout) (record c { waiting = 0 })
  step timed_out c = settled c.phase (some false) c
  step (rested connected) c = retry c.phase connected c

  unfoldable pub run : List Event → Call → Call
  run [] c = c
  run (event ∷ events) c = run events (step event c)

  -- `execWithRetry(fn)`
  unfoldable pub exec_with_retry : Bool → List Event → Call
  unfolding start run
  exec_with_retry connected events =
      run events
        (start connected (record { attempt = 0; waiting = 0; executed = 0; phase = racing }))
