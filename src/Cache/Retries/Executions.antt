-- ===== src/Cache/Retries/Executions.antt =====
-- How often a command runs.
use datamaster.Prelude.{
  ℕ, zero, suc, ◌+◌, ◌-◌, ◌≤◌, ◌<◌, ◌≡◌, refl, sym, ap, ◌∙◌, Bool, true, false, ◌||◌, Option, none,
  some, List, [], ◌∷◌, leb, if_cases, arith, max,
}
use datamaster.Cache.Retries.{
  Phase, racing, resting, returned, failed, Call, Event, ready, not_ready, timed_out, rested,
  caught, settled, result_of, start, retry, step, run, exec_with_retry,
}

-- No attempt runs the command more than once, and a retry is left while the call rests.
pub record IsBounded (limit : ℕ) (c : Call) : Type 0 where
  pub once : c.executed + c.waiting ≤ c.attempt + 1
  pub within : c.attempt + 1 ≤ max 1 limit
  pub left : c.phase ≡ resting → c.attempt + 2 ≤ limit

module _ (limit : ℕ) where
  -- Where the call does not rest, the counts are enough.
  moved-IsBounded :
      (phase : Phase) (c : Call)
      → c.executed + c.waiting ≤ c.attempt + 1
      → c.attempt + 1 ≤ max 1 limit
      → (phase ≡ resting → c.attempt + 2 ≤ limit)
      → IsBounded limit (record c { phase = phase })
  moved-IsBounded phase c h k l = record { once = h; within = k; left = l }

  caught-IsBounded :
      (connection_timeout : Bool) (c : Call)
      → c.executed + c.waiting ≤ c.attempt + 1
      → c.attempt + 1 ≤ max 1 limit
      → IsBounded limit (caught limit connection_timeout c)
  unfolding caught
  caught-IsBounded t c h k =
      if_cases (IsBounded limit) (leb (limit - 1) c.attempt || t)
        (λ e. moved-IsBounded failed c h k (λ p. cc))
        (λ e. moved-IsBounded resting c h k (λ p. ground arith))

  settled-IsBounded :
      (phase : Phase) (r : Option Bool) (c : Call)
      → c.executed + c.waiting ≤ c.attempt + 1
      → c.attempt + 1 ≤ max 1 limit
      → (c.phase ≡ resting → c.attempt + 2 ≤ limit)
      → IsBounded limit (settled limit phase r c)
  unfolding settled
  settled-IsBounded racing none c h k l = moved-IsBounded returned c h k (λ p. cc)
  settled-IsBounded racing (some t) c h k l = caught-IsBounded t c h k
  settled-IsBounded resting r c h k l = record { once = h; within = k; left = l }
  settled-IsBounded returned r c h k l = record { once = h; within = k; left = l }
  settled-IsBounded failed r c h k l = record { once = h; within = k; left = l }

  start-IsBounded :
      (connected : Bool) (c : Call)
      → c.executed + c.waiting ≤ c.attempt
      → c.attempt + 1 ≤ max 1 limit
      → IsBounded limit (start limit connected c)
  unfolding start
  start-IsBounded true c h k = record { once = omega arith; within = k; left = λ p. cc }
  start-IsBounded false c h k = record { once = omega arith; within = k; left = λ p. cc }

  retry-IsBounded :
      (phase : Phase) (connected : Bool) (c : Call)
      → phase ≡ c.phase
      → IsBounded limit c
      → IsBounded limit (retry limit phase connected c)
  unfolding retry
  retry-IsBounded resting connected c e b =
      let left = b.left (sym e) in
      start-IsBounded connected (record c { attempt = c.attempt + 1 }) b.once (omega (arith, left))
  retry-IsBounded racing connected c e b = b
  retry-IsBounded returned connected c e b = b
  retry-IsBounded failed connected c e b = b

  step-IsBounded :
      (event : Event) (c : Call) → IsBounded limit c → IsBounded limit (step limit event c)
  unfolding step
  step-IsBounded (ready succeeds) c b =
      settled-IsBounded c.phase (result_of limit succeeds)
        (record c { executed = c.executed + c.waiting; waiting = 0 }) (omega (arith, b.once))
        b.within b.left
  step-IsBounded (not_ready t) c b =
      settled-IsBounded c.phase (some t) (record c { waiting = 0 }) (omega (arith, b.once)) b.within
        b.left
  step-IsBounded timed_out c b = settled-IsBounded c.phase (some false) c b.once b.within b.left
  step-IsBounded (rested connected) c b = retry-IsBounded c.phase connected c refl b

  run-IsBounded :
      (events : List Event) (c : Call) → IsBounded limit c → IsBounded limit (run limit events c)
  unfolding run
  run-IsBounded [] c b = b
  run-IsBounded (event ∷ events) c b =
      run-IsBounded events (step limit event c) (step-IsBounded event c b)

  -- Whatever happens, `execWithRetry` makes at most `maxCommandRetries` attempts, and one at least,
  -- and no attempt runs the command twice: so the command runs at most that often.
  pub exec_with_retry-IsBounded :
      (connected : Bool) (events : List Event)
      → IsBounded limit (exec_with_retry limit connected events)
  unfolding exec_with_retry
  exec_with_retry-IsBounded connected events = run-IsBounded events _ (
      start-IsBounded connected (record { attempt = 0; waiting = 0; executed = 0; phase = racing })
        (omega arith) (omega arith))

  -- The timeout and the retry interval, again and again.
  abbrev pub timeouts : ℕ → List Event
  timeouts zero = ready true ∷ []
  timeouts (suc n) = timed_out ∷ rested false ∷ timeouts n

  -- The call in its race after `a` timeouts.
  abbrev after : ℕ → Call
  after a = record { attempt = a; waiting = a + 1; executed = 0; phase = racing }

  not_last : (a : ℕ) → a + 2 ≤ limit → (leb (limit - 1) a || false) ≡ false
  not_last a h = ground arith

  timed_out_step :
      (a : ℕ)
      → a + 2 ≤ limit
      → step limit (rested false) (step limit timed_out (after a)) ≡ after (a + 1)
  unfolding step settled retry caught start
  timed_out_step a h = rw (not_last a h) refl

  run-timeouts :
      (n a : ℕ)
      → a + n + 1 ≤ limit
      → run limit (timeouts n) (after a)
        ≡ record { attempt = a + n; waiting = 0; executed = a + n + 1; phase = returned }
  unfolding run step settled
  run-timeouts zero a h = ground arith
  run-timeouts (suc n) a h =
      ap (run limit (timeouts n)) (timed_out_step a (omega arith))
      ∙ run-timeouts n (a + 1) (omega arith)
      ∙ ground arith

  -- A timeout gives up the race and not the attempt: where `n` attempts time out, fewer than
  -- `maxCommandRetries`, before the connection is ready, the command runs `n + 1` times, and the
  -- call returns.
  pub exec_with_retry-timeouts :
      (n : ℕ)
      → n < limit
      → ((exec_with_retry limit false (timeouts n)).executed ≡ n + 1)
        × ((exec_with_retry limit false (timeouts n)).phase ≡ returned)
  unfolding exec_with_retry start
  exec_with_retry-timeouts n h =
      let e = run-timeouts n 0 (omega arith) in
      (ap (λ (c : Call). c.executed) e ∙ omega arith, ap (λ (c : Call). c.phase) e)
