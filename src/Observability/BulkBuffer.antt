-- ===== src/Observability/BulkBuffer.antt =====
-- modules/observability/bulk-buffer.ts: `BulkBuffer`. A step returns the new state and the batches
-- that it hands to `onFlush`; whether their promises succeed is up to the caller's function.
pub mod Delivery
use datamaster.Prelude.{
  ℕ, Bool, true, false, Option, none, some, List, [], ◌∷◌, ◌++◌, leb, length, if◌then◌else◌,
}
use mathlib.Core.Option

pub record BulkBuffer (T : Type 0) : Type 0 where
  pub items : List T
  pub max_size : ℕ
  pub flush_interval_ms : ℕ
  -- The delay of the pending `setTimeout`, if there is one.
  pub timer : Option ℕ

-- The constructor, with its default options.
unfoldable pub create : {T : Type 0} → Option ℕ → Option ℕ → BulkBuffer T
create max_size flush_interval_ms = record {
  items = [];
  max_size = Option.get_or max_size 100;
  flush_interval_ms = Option.get_or flush_interval_ms 5000;
  timer = none;
}

-- `flush` up to its `await`: the batch is swapped out before `onFlush` is called.
unfoldable pub flush : {T : Type 0} → BulkBuffer T → BulkBuffer T × List (List T)
flush b = elim b.items [
  | [] ↦ (b, [])
  | first ∷ others ↦ (record b { items = []; timer = none }, (first ∷ others) ∷ [])
]

unfoldable pub push : {T : Type 0} → T → BulkBuffer T → BulkBuffer T × List (List T)
push item b =
    let b' = record b { items = b.items ++ item ∷ [] } in
    if leb b.max_size (length b'.items) then flush b' else elim b.timer [
      | none ↦ (record b' { timer = some b.flush_interval_ms }, [])
      | some _ ↦ (b', [])
    ]

-- The pending timer fires; without one there is nothing to fire.
unfoldable pub fire_timer : {T : Type 0} → BulkBuffer T → BulkBuffer T × List (List T)
fire_timer b = elim b.timer [ none ↦ (b, []) | some _ ↦ flush b ]

pub data Event (T : Type 0) : Type 0 where
  pushed : T → Event T
  flushed : Event T
  timed_out : Event T

unfoldable pub step : {T : Type 0} → Event T → BulkBuffer T → BulkBuffer T × List (List T)
step (pushed item) b = push item b
step flushed b = flush b
step timed_out b = fire_timer b

-- A run, with the batches handed over in order.
unfoldable pub run : {T : Type 0} → List (Event T) → BulkBuffer T → BulkBuffer T × List (List T)
run [] b = (b, [])
run (e ∷ es) b =
    let (b', batches) = step e b in let (b'', later) = run es b' in (b'', batches ++ later)
