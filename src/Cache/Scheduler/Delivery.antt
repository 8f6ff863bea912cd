-- ===== src/Cache/Scheduler/Delivery.antt =====
-- What `RedisPipelineScheduler` sends, and what it drops.
use datamaster.Prelude.{
  ℕ, zero, suc, Bool, none, if◌then◌else◌, ◌<◌, ◌≡◌, ◌≢◌, refl, sym, ap, ◌∙◌, true, false, Option,
  List, [], ◌∷◌, ◌++◌, arith, length, append_assoc, append-nil, length-append, is_some, Bool-cases,
  inl, inr,
}
use mathlib.Core.Path.{subst}
use datamaster.Cache.Scheduler.{
  Scheduler, create, flush, exec, settle, add_set, fire_timer, Event, added, flushed, timed_out,
  ended, step, run, exec_times,
}

unfoldable pub commands : {C : Type 0} → List (Event C) → List C
commands [] = []
commands (added c ∷ es) = c ∷ commands es
commands (flushed ∷ es) = commands es
commands (timed_out ∷ es) = commands es
commands (ended n ∷ es) = commands es

-- The batch of the flush that an event ends, and how often it has been sent.
abbrev pub ended_batch : {C : Type 0} → Event C → Scheduler C → List (List C × ℕ)
ended_batch (ended n) s = if s.flushing then (s.pipeline, n) ∷ [] else []
ended_batch _ s = []

unfoldable pub batches : {C : Type 0} → List (Event C) → Scheduler C → List (List C × ℕ)
batches [] s = []
batches (e ∷ es) s = ended_batch e s ++ batches es (step e s)

abbrev pub repeated : {C : Type 0} → ℕ → List C → List C
repeated zero batch = []
repeated (suc n) batch = batch ++ repeated n batch

-- The batches joined, each once, and each as often as it has been sent.
abbrev pub joined : {C : Type 0} → List (List C × ℕ) → List C
joined [] = []
joined ((batch, n) ∷ others) = batch ++ joined others

abbrev pub deliveries : {C : Type 0} → List (List C × ℕ) → List C
deliveries [] = []
deliveries ((batch, n) ∷ others) = repeated n batch ++ deliveries others

-- The counter counts the pipeline; a batch that is full is being flushed; and what waits has a
-- flush or a timer on its way.
pub record IsValid {C : Type 0} (s : Scheduler C) : Type 0 where
  pub counted : s.counter ≡ length s.pipeline
  pub below : s.flushing ≡ false → s.pipeline ≢ [] → s.counter < s.max_batch
  pub timed : s.flushing ≡ false → s.pipeline ≢ [] → is_some s.timer ≡ true

module _ {C : Type 0} where
  create-IsValid : (max_batch max_delay : Option ℕ) → IsValid {C = C} (create max_batch max_delay)
  unfolding create
  create-IsValid max_batch max_delay = ground arith

  exec_times-idle : (n : ℕ) (s : Scheduler C) → s.flushing ≡ false → exec_times n s ≡ s
  unfolding exec_times exec
  exec_times-idle zero s idle = refl
  exec_times-idle (suc n) s idle =
      ap (λ (b : Bool). exec_times n (if b then record s { sent = s.sent ++ s.pipeline } else s))
        idle
      ∙ exec_times-idle n s idle

  exec_times-busy :
      (n : ℕ) (s : Scheduler C)
      → s.flushing ≡ true
      → exec_times n s ≡ record s { sent = s.sent ++ repeated n s.pipeline }
  unfolding exec_times exec
  exec_times-busy zero s busy = ap (λ l. record s { sent = l }) (sym (append-nil s.sent))
  exec_times-busy (suc n) s busy =
      ap (λ (b : Bool). exec_times n (if b then record s { sent = s.sent ++ s.pipeline } else s))
        busy
      ∙ exec_times-busy n (record s { sent = s.sent ++ s.pipeline }) busy
      ∙ ap (λ l. record s { sent = l }) (append_assoc s.sent s.pipeline (repeated n s.pipeline))

  -- After a flush.
  abbrev over : Scheduler C → List C → Scheduler C
  over s sent = record s { sent = sent; pipeline = []; counter = 0; flushing = false; timer = none }

  ended-idle : (n : ℕ) (s : Scheduler C) → s.flushing ≡ false → step (ended n) s ≡ s
  unfolding step settle
  ended-idle n s idle =
      ap settle (exec_times-idle n s idle) ∙ ap (λ (b : Bool). if b then over s s.sent else s) idle

  ended-busy :
      (n : ℕ) (s : Scheduler C)
      → s.flushing ≡ true
      → step (ended n) s ≡ over s (s.sent ++ repeated n s.pipeline)
  unfolding step settle
  ended-busy n s busy =
      ap settle (exec_times-busy n s busy)
      ∙ ap
          (λ (b : Bool).
            if b
            then over s (s.sent ++ repeated n s.pipeline)
            else record s { sent = s.sent ++ repeated n s.pipeline })
          busy

  step-IsValid : (e : Event C) (s : Scheduler C) → IsValid s → IsValid (step e s)
  unfolding step add_set flush fire_timer
  step-IsValid (added c) s h = ground (arith, length-append s.pipeline (c ∷ []))
  step-IsValid flushed s h = ground arith
  step-IsValid timed_out s h = ground arith
  step-IsValid (ended n) s h = elim (Bool-cases s.flushing) [
    | inl busy ↦ subst IsValid (sym (ended-busy n s busy)) (record {
      counted = refl;
      below = λ idle some_wait. absurd (some_wait refl);
      timed = λ idle some_wait. absurd (some_wait refl);
    })
    | inr idle ↦ subst IsValid (sym (ended-idle n s idle)) h
  ]

  -- An event accounts for the commands of the pipeline.
  Accounts : Event C → Scheduler C → Scheduler C → Type 0
  Accounts e s s' =
      (joined (ended_batch e s) ++ s'.pipeline ≡ s.pipeline ++ commands (e ∷ []))
      × (s'.sent ≡ s.sent ++ deliveries (ended_batch e s))

  ended-Accounts : (n : ℕ) (s : Scheduler C) → Accounts (ended n) s (step (ended n) s)
  unfolding Accounts commands
  ended-Accounts n s =
      let s' = step (ended n) s in
      let ends = λ (b : Bool). if b then (s.pipeline, n) ∷ [] else [] in
      elim (Bool-cases s.flushing) [
        | inl busy ↦ (
          ap (λ b. joined (ends b) ++ s'.pipeline) busy
              ∙ ap (λ (x : Scheduler C). (s.pipeline ++ []) ++ x.pipeline) (ended-busy n s busy)
              ∙ append-nil (s.pipeline ++ []),
          ap (λ (x : Scheduler C). x.sent) (ended-busy n s busy)
              ∙ ap (λ l. s.sent ++ l) (sym (append-nil (repeated n s.pipeline)))
              ∙ ap (λ b. s.sent ++ deliveries (ends b)) (sym busy),
        )
        | inr idle ↦ (
          ap (λ b. joined (ends b) ++ s'.pipeline) idle
              ∙ ap (λ (x : Scheduler C). x.pipeline) (ended-idle n s idle)
              ∙ sym (append-nil s.pipeline),
          ap (λ (x : Scheduler C). x.sent) (ended-idle n s idle)
              ∙ sym (append-nil s.sent)
              ∙ ap (λ b. s.sent ++ deliveries (ends b)) (sym idle),
        )
      ]

  step-Accounts : (e : Event C) (s : Scheduler C) → Accounts e s (step e s)
  unfolding step add_set flush fire_timer commands Accounts
  step-Accounts (added c) s = (ground arith, ground (arith, append-nil s.sent))
  step-Accounts flushed s =
      (ground (arith, append-nil s.pipeline), ground (arith, append-nil s.sent))
  step-Accounts timed_out s =
      (ground (arith, append-nil s.pipeline), ground (arith, append-nil s.sent))
  step-Accounts (ended n) s = ended-Accounts n s

  accounted_pipeline :
      (e : Event C) (s : Scheduler C)
      → joined (ended_batch e s) ++ (step e s).pipeline ≡ s.pipeline ++ commands (e ∷ [])
  unfolding Accounts
  accounted_pipeline e s = (step-Accounts e s).0

  accounted_sent :
      (e : Event C) (s : Scheduler C) → (step e s).sent ≡ s.sent ++ deliveries (ended_batch e s)
  unfolding Accounts
  accounted_sent e s = (step-Accounts e s).1

  joined-append : (xs ys : List (List C × ℕ)) → joined (xs ++ ys) ≡ joined xs ++ joined ys
  joined-append [] ys = refl
  joined-append ((batch, n) ∷ xs) ys =
      ap (λ l. batch ++ l) (joined-append xs ys) ∙ sym (append_assoc batch (joined xs) (joined ys))

  deliveries-append :
      (xs ys : List (List C × ℕ)) → deliveries (xs ++ ys) ≡ deliveries xs ++ deliveries ys
  deliveries-append [] ys = refl
  deliveries-append ((batch, n) ∷ xs) ys =
      ap (λ l. repeated n batch ++ l) (deliveries-append xs ys)
      ∙ sym (append_assoc (repeated n batch) (deliveries xs) (deliveries ys))

  commands-cons :
      (e : Event C) (es : List (Event C)) → commands (e ∷ es) ≡ commands (e ∷ []) ++ commands es
  unfolding commands
  commands-cons (added c) es = refl
  commands-cons flushed es = refl
  commands-cons timed_out es = refl
  commands-cons (ended n) es = refl

  run-IsValid : (es : List (Event C)) (s : Scheduler C) → IsValid s → IsValid (run es s)
  unfolding run
  run-IsValid [] s h = h
  run-IsValid (e ∷ es) s h = run-IsValid es (step e s) (step-IsValid e s h)

  run-joined :
      (es : List (Event C)) (s : Scheduler C)
      → joined (batches es s) ++ (run es s).pipeline ≡ s.pipeline ++ commands es
  unfolding run commands batches
  run-joined [] s = sym (append-nil s.pipeline)
  run-joined (e ∷ es) s =
      let now = joined (ended_batch e s) in
      let later = joined (batches es (step e s)) in
      ap (λ l. l ++ (run es (step e s)).pipeline)
        (joined-append (ended_batch e s) (batches es (step e s)))
      ∙ append_assoc now later (run es (step e s)).pipeline
      ∙ ap (λ l. now ++ l) (run-joined es (step e s))
      ∙ sym (append_assoc now (step e s).pipeline (commands es))
      ∙ ap (λ l. l ++ commands es) (accounted_pipeline e s)
      ∙ append_assoc s.pipeline (commands (e ∷ [])) (commands es)
      ∙ ap (λ l. s.pipeline ++ l) (sym (commands-cons e es))

  run-deliveries :
      (es : List (Event C)) (s : Scheduler C)
      → (run es s).sent ≡ s.sent ++ deliveries (batches es s)
  unfolding run batches
  run-deliveries [] s = sym (append-nil s.sent)
  run-deliveries (e ∷ es) s =
      let now = deliveries (ended_batch e s) in
      let later = deliveries (batches es (step e s)) in
      run-deliveries es (step e s)
      ∙ ap (λ l. l ++ later) (accounted_sent e s)
      ∙ append_assoc s.sent now later
      ∙ ap (λ l. s.sent ++ l) (sym (deliveries-append (ended_batch e s) (batches es (step e s))))

  -- From the constructor on, while no other call comes between the `exec`s of a flush and its end:
  -- the batches of the flushes that are over, joined, followed by the commands in the pipeline, are
  -- the commands added, each once and in order; and the server got each of these batches, in their
  -- order, as often as its flush sent it: once, again with each attempt that follows one that had
  -- reached the server, or not at all if the flush failed before, when the batch is lost. The counter
  -- counts the pipeline; and where commands wait outside a flush, they are fewer than `maxBatch` and
  -- a timer runs.
  pub create-run-sent :
      (max_batch max_delay : Option ℕ) (es : List (Event C))
      → (joined (batches es (create max_batch max_delay))
            ++ (run es (create max_batch max_delay)).pipeline
          ≡ commands es)
        × ((run es (create max_batch max_delay)).sent
            ≡ deliveries (batches es (create max_batch max_delay)))
        × IsValid (run es (create max_batch max_delay))
  unfolding create
  create-run-sent max_batch max_delay es = (
    run-joined es (create max_batch max_delay),
    run-deliveries es (create max_batch max_delay),
    run-IsValid es (create max_batch max_delay) (create-IsValid max_batch max_delay),
  )

  unfoldable pub add_sets : List C → Scheduler C → Scheduler C
  add_sets [] s = s
  add_sets (c ∷ cs) s = add_sets cs (add_set c s)

  settle-add_set : (c : C) (s : Scheduler C) → s.flushing ≡ true → settle (add_set c s) ≡ settle s
  unfolding settle add_set flush
  settle-add_set c s busy = ground arith

  add_set-flushing : (c : C) (s : Scheduler C) → s.flushing ≡ true → (add_set c s).flushing ≡ true
  unfolding add_set flush
  add_set-flushing c s busy = ground arith

  settle-add_sets :
      (cs : List C) (s : Scheduler C) → s.flushing ≡ true → settle (add_sets cs s) ≡ settle s
  unfolding add_sets
  settle-add_sets [] s busy = refl
  settle-add_sets (c ∷ cs) s busy =
      settle-add_sets cs (add_set c s) (add_set-flushing c s busy) ∙ settle-add_set c s busy

  -- Commands that are added after a flush has called `exec` and before its reply arrives leave no
  -- trace: once the flush is over the scheduler is as if they had never been added, so they are
  -- neither sent nor queued.
  pub settle-add_sets-exec :
      (cs : List C) (s : Scheduler C)
      → s.flushing ≡ true
      → settle (add_sets cs (exec s)) ≡ settle (exec s)
  unfolding exec
  settle-add_sets-exec cs s busy = settle-add_sets cs (exec s) (ground arith)
