-- ===== src/Observability/BulkBuffer/Delivery.antt =====
-- What `BulkBuffer` hands over: everything that was pushed, once and in order.
use datamaster.Prelude.{
  ℕ, ◌≤◌, ◌<◌, ◌≡◌, ◌≢◌, refl, sym, ap, ◌∙◌, true, Option, none, List, [], ◌∷◌, ◌++◌, arith, max,
  leb, length, All, All-append, append_assoc, append-nil, length-append, if_cases, is_some,
}
use mathlib.Core.List.{flatten}
use mathlib.Core.Option
use mathlib.Core.Path.{subst}
use datamaster.Observability.BulkBuffer.{
  BulkBuffer, create, flush, push, fire_timer, Event, pushed, flushed, timed_out, step, run,
}

-- The items that a sequence of events pushes.
pub inputs : {T : Type 0} → List (Event T) → List T
inputs [] = []
inputs (pushed item ∷ es) = item ∷ inputs es
inputs (flushed ∷ es) = inputs es
inputs (timed_out ∷ es) = inputs es

-- Below its threshold, and a timer runs exactly while something waits.
pub record IsValid {T : Type 0} (b : BulkBuffer T) : Type 0 where
  pub below : b.items ≢ [] → length b.items < b.max_size
  pub timed : b.items ≢ [] → is_some b.timer ≡ true
  pub idle : b.items ≡ [] → b.timer ≡ none

abbrev pub IsBatch : {T : Type 0} → ℕ → List T → Type 0
IsBatch max_size batch = (batch ≢ []) × (length batch ≤ max 1 max_size)

module _ {T : Type 0} where
  flush-IsValid : (b : BulkBuffer T) → IsValid b → IsValid (flush b).0
  unfolding flush
  flush-IsValid b h = ground arith

  flush-flatten : (b : BulkBuffer T) → flatten (flush b).1 ++ (flush b).0.items ≡ b.items
  unfolding flush flatten
  flush-flatten b = ground (arith, append-nil b.items)

  push-flatten :
      (x : T) (b : BulkBuffer T) → flatten (push x b).1 ++ (push x b).0.items ≡ b.items ++ x ∷ []
  unfolding push flatten
  push-flatten x b =
      if_cases (λ (r : BulkBuffer T × List (List T)). flatten r.1 ++ r.0.items ≡ b.items ++ x ∷ [])
        (leb b.max_size (length (b.items ++ x ∷ [])))
        (λ full. flush-flatten (record b { items = b.items ++ x ∷ [] })) (λ waits. ground arith)

  flatten-append : (xs ys : List (List T)) → flatten (xs ++ ys) ≡ flatten xs ++ flatten ys
  unfolding flatten
  flatten-append [] ys = refl
  flatten-append (x ∷ xs) ys = rw (flatten-append xs ys, append_assoc x (flatten xs) (flatten ys))

  step-IsValid : (e : Event T) (b : BulkBuffer T) → IsValid b → IsValid (step e b).0
  unfolding step push flush fire_timer
  step-IsValid (pushed x) b h = ground arith
  step-IsValid flushed b h = ground arith
  step-IsValid timed_out b h = ground arith

  step-flatten :
      (e : Event T) (b : BulkBuffer T)
      → flatten (step e b).1 ++ (step e b).0.items ≡ b.items ++ inputs (e ∷ [])
  unfolding step fire_timer inputs flatten
  step-flatten (pushed x) b = push-flatten x b
  step-flatten flushed b = flush-flatten b ∙ sym (append-nil b.items)
  step-flatten timed_out b = ground (arith, flush-flatten b, append-nil b.items)

  inputs-cons : (e : Event T) (es : List (Event T)) → inputs (e ∷ es) ≡ inputs (e ∷ []) ++ inputs es
  unfolding inputs
  inputs-cons (pushed x) es = refl
  inputs-cons flushed es = refl
  inputs-cons timed_out es = refl

  -- Whatever is pushed, flushed and timed out in whatever order: the batches handed over, joined,
  -- and the items that still wait are together what was pushed, each item once and in order.
  pub run-flatten :
      (es : List (Event T)) (b : BulkBuffer T)
      → flatten (run es b).1 ++ (run es b).0.items ≡ b.items ++ inputs es
  unfolding run inputs flatten
  run-flatten [] b = sym (append-nil b.items)
  run-flatten (e ∷ es) b =
      let (b', batches) = step e b in
      rw
        (
          flatten-append batches (run es b').1,
          append_assoc (flatten batches) (flatten (run es b').1) (run es b').0.items,
          run-flatten es b',
          ← append_assoc (flatten batches) b'.items (inputs es),
          step-flatten e b,
          append_assoc b.items (inputs (e ∷ [])) (inputs es),
        )
        (ap (λ l. b.items ++ l) (sym (inputs-cons e es)))

  step-batches :
      (e : Event T) (b : BulkBuffer T) → IsValid b → All (IsBatch b.max_size) (step e b).1
  unfolding step push flush fire_timer
  step-batches (pushed x) b h = ground (arith, length-append b.items (x ∷ []))
  step-batches flushed b h = ground arith
  step-batches timed_out b h = ground arith

  step-max_size : (e : Event T) (b : BulkBuffer T) → (step e b).0.max_size ≡ b.max_size
  unfolding step push flush fire_timer
  step-max_size (pushed x) b = ground arith
  step-max_size flushed b = ground arith
  step-max_size timed_out b = ground arith

  create-IsValid :
      (max_size flush_interval_ms : Option ℕ) → IsValid {T = T} (create max_size flush_interval_ms)
  unfolding create
  create-IsValid max_size flush_interval_ms = ground arith

  run-IsValid : (es : List (Event T)) (b : BulkBuffer T) → IsValid b → IsValid (run es b).0
  unfolding run
  run-IsValid [] b h = h
  run-IsValid (e ∷ es) b h = run-IsValid es (step e b).0 (step-IsValid e b h)

  run-batches :
      (es : List (Event T)) (b : BulkBuffer T) → IsValid b → All (IsBatch b.max_size) (run es b).1
  unfolding run
  run-batches [] b h = tt
  run-batches (e ∷ es) b h =
      All-append (IsBatch b.max_size) (step e b).1 (run es (step e b).0).1 (step-batches e b h) (
        subst (λ n. All (IsBatch n) (run es (step e b).0).1) (step-max_size e b)
          (run-batches es (step e b).0 (step-IsValid e b h)))

  -- From the constructor on: every batch handed over holds at least one item and no more than
  -- `maxSize` of them, or 1 for a `maxSize` of 0; while items wait, they are fewer than `maxSize`; and
  -- a timer is pending exactly while items wait.
  pub create-run-bounds :
      (max_size flush_interval_ms : Option ℕ) (es : List (Event T))
      → All
          (IsBatch (Option.get_or max_size 100))
          (run es (create {T = T} max_size flush_interval_ms)).1
        × IsValid (run es (create {T = T} max_size flush_interval_ms)).0
  unfolding create
  create-run-bounds max_size flush_interval_ms es =
      let start = create-IsValid max_size flush_interval_ms in
      (
        run-batches es (create max_size flush_interval_ms) start,
        run-IsValid es (create max_size flush_interval_ms) start,
      )
