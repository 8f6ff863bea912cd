-- ===== src/Tests/Observability.antt =====
-- `BulkBuffer` on small inputs.
use datamaster.Prelude.{ℕ, ◌≡◌, refl, none, some, [], ◌∷◌, ◌++◌, All}
use mathlib.Core.List.{flatten}
use datamaster.Observability.BulkBuffer
use datamaster.Observability.BulkBuffer.{BulkBuffer, pushed, flushed, timed_out, create, run}
use datamaster.Observability.BulkBuffer.Delivery.{
  inputs, IsValid, IsBatch, run-flatten, create-run-bounds,
}

batches :
    (run {T = ℕ}
      (pushed 7 ∷ pushed 8 ∷ pushed 9 ∷ timed_out ∷ pushed 6 ∷ [])
      (create (some 2) none)).1
    ≡ (7 ∷ 8 ∷ []) ∷ (9 ∷ []) ∷ []
unfolding run create BulkBuffer.step BulkBuffer.push BulkBuffer.fire_timer BulkBuffer.flush
batches = refl

run-flatten_example :
    flatten (run (pushed 7 ∷ pushed 8 ∷ pushed 9 ∷ []) (create (some 2) none)).1
      ++ (run (pushed 7 ∷ pushed 8 ∷ pushed 9 ∷ []) (create (some 2) none)).0.items
    ≡ (create {T = ℕ} (some 2) none).items ++ inputs (pushed 7 ∷ pushed 8 ∷ pushed 9 ∷ [])
run-flatten_example = run-flatten (pushed 7 ∷ pushed 8 ∷ pushed 9 ∷ []) (create (some 2) none)

create-run-bounds_example :
    All (IsBatch 2) (run (pushed 7 ∷ pushed 8 ∷ timed_out ∷ []) (create {T = ℕ} (some 2) none)).1
    × IsValid (run (pushed 7 ∷ pushed 8 ∷ timed_out ∷ []) (create {T = ℕ} (some 2) none)).0
create-run-bounds_example = create-run-bounds (some 2) none (pushed 7 ∷ pushed 8 ∷ timed_out ∷ [])
