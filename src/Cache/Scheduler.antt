-- ===== src/Cache/Scheduler.antt =====
-- modules/cache/providers/redis/connector/scheduler.ts: `RedisPipelineScheduler`. The client's
-- pipeline, `redis.multi()`, is the list of the commands set on it; `exec` sends those that it
-- holds when it is called. A flush waits for `execWithRetry`, so its end is a step of its own.
pub mod Delivery
use datamaster.Prelude.{
  ℕ, zero, suc, ◌+◌, Bool, true, false, ◌||◌, Option, none, some, List, [], ◌∷◌, ◌++◌, leb, ◌==◌,
  if◌then◌else◌,
}
use mathlib.Core.Option

-- The fields of the scheduler, and the commands that have reached the server.
pub record Scheduler (C : Type 0) : Type 0 where
  pub max_batch : ℕ
  pub max_delay : ℕ
  pub pipeline : List C
  pub counter : ℕ
  pub timer : Option ℕ
  pub flushing : Bool
  pub sent : List C

unfoldable pub create : {C : Type 0} → Option ℕ → Option ℕ → Scheduler C
create max_batch max_delay = record {
  max_batch = Option.get_or max_batch 200;
  max_delay = Option.get_or max_delay 100;
  pipeline = [];
  counter = 0;
  timer = none;
  flushing = false;
  sent = [];
}

-- `flush` up to its `await`.
unfoldable pub flush : {C : Type 0} → Scheduler C → Scheduler C
flush s = if s.flushing || s.counter == 0 then s else record s { flushing = true }

-- One call of `() => this.pipeline.exec()` that reaches the server. `execWithRetry` makes as many as
-- it takes: none if the connection does not become ready, and more than one if it tries again.
unfoldable pub exec : {C : Type 0} → Scheduler C → Scheduler C
exec s = if s.flushing then record s { sent = s.sent ++ s.pipeline } else s

unfoldable pub exec_times : {C : Type 0} → ℕ → Scheduler C → Scheduler C
unfolding exec
exec_times zero s = s
exec_times (suc n) s = exec_times n (exec s)

-- The `finally` block of `flush`, whether the commands have been sent or an error was logged.
unfoldable pub settle : {C : Type 0} → Scheduler C → Scheduler C
settle s =
    if s.flushing
    then record s { pipeline = []; counter = 0; flushing = false; timer = none }
    else s

unfoldable pub add_set : {C : Type 0} → C → Scheduler C → Scheduler C
add_set command s =
    let s' = record s { pipeline = s.pipeline ++ command ∷ []; counter = s.counter + 1 } in
    if leb s.max_batch s'.counter
    then flush s'
    else elim s.timer [ none ↦ record s' { timer = some s.max_delay } | some _ ↦ s' ]

-- The pending timer fires.
unfoldable pub fire_timer : {C : Type 0} → Scheduler C → Scheduler C
fire_timer s = elim s.timer [ none ↦ s | some _ ↦ flush s ]

-- What can happen between two turns of the event loop. `ended n` is the end of a flush whose pipeline
-- has been sent `n` times, 0 if it failed before it was, with no other call between its `exec`s and
-- `settle`.
pub data Event (C : Type 0) : Type 0 where
  added : C → Event C
  flushed : Event C
  timed_out : Event C
  ended : ℕ → Event C

unfoldable pub step : {C : Type 0} → Event C → Scheduler C → Scheduler C
unfolding exec_times
step (added command) s = add_set command s
step flushed s = flush s
step timed_out s = fire_timer s
step (ended n) s = settle (exec_times n s)

unfoldable pub run : {C : Type 0} → List (Event C) → Scheduler C → Scheduler C
run [] s = s
run (e ∷ es) s = run es (step e s)
