-- ===== src/Tests/Retries.antt =====
-- A command of the Redis connector that waits for its connection.
use datamaster.Prelude.{◌≡◌, true, false, [], ◌∷◌, arith}
use datamaster.Cache.Retries.{timed_out, rested, not_ready, returned, exec_with_retry}
use datamaster.Cache.Retries.Executions.{
  IsBounded, timeouts, exec_with_retry-IsBounded, exec_with_retry-timeouts,
}

exec_with_retry-IsBounded_example :
    IsBounded 3
      (exec_with_retry 3 false (timed_out ∷ rested false ∷ not_ready false ∷ rested true ∷ []))
exec_with_retry-IsBounded_example =
    exec_with_retry-IsBounded 3 false
      (timed_out ∷ rested false ∷ not_ready false ∷ rested true ∷ [])

-- Two timeouts of three attempts.
exec_with_retry-timeouts_example :
    ((exec_with_retry 3 false (timeouts 3 2)).executed ≡ 3)
    × ((exec_with_retry 3 false (timeouts 3 2)).phase ≡ returned)
exec_with_retry-timeouts_example = exec_with_retry-timeouts 3 2 (omega arith)
