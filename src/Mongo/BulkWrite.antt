-- ===== src/Mongo/BulkWrite.antt =====
-- processor/schema/statics/upsert.ts: `bulkWriteWithRetry`. What `model.bulkWrite` with
-- `ordered: false` does is an interface, since the driver is not part of the repository.
pub mod Applied
use datamaster.Prelude.{
  ℕ, zero, suc, ◌+◌, ◌-◌, ◌*◌, ◌^◌, ◌<◌, ◌≡◌, ◌⊎◌, Option, none, some, List, [], ◌∷◌, length,
  get_elem?, All,
}

abbrev pub Among : {A : Type 0} → A → List A → Type 0
Among x [] = ⊥
Among x (y ∷ l) = (x ≡ y) ⊎ Among x l

-- How a call ends: all written, an error with `writeErrors`, by their indices, or another error.
pub data Reply : Type 0 where
  written : Reply
  write_errors : List ℕ → Reply
  other_error : Reply

pub record Driver (Op : Type 0) : Type 1 where
  pub Store : Type 0
  pub IsApplied : Op → Store → Type 0
  pub bulk_write : List Op → Store → Store × Reply
  pub written_lem :
      (ops : List Op) (s : Store)
      → (bulk_write ops s).1 ≡ written
      → All (λ op. IsApplied op (bulk_write ops s).0) ops
  -- The indices are those of the operations that failed.
  pub errors_lem :
      (ops : List Op) (s : Store) (is : List ℕ)
      → (bulk_write ops s).1 ≡ write_errors is
      → (i : ℕ) (op : Op) → get_elem? ops i ≡ some op
      → Among i is ⊎ IsApplied op (bulk_write ops s).0
  pub range_lem :
      (ops : List Op) (s : Store) (is : List ℕ)
      → (bulk_write ops s).1 ≡ write_errors is
      → All (λ i. i < length ops) is
  pub keep_lem :
      (ops : List Op) (s : Store) (op : Op) → IsApplied op s → IsApplied op (bulk_write ops s).0

-- `writeErrors.map((writeError) => ops[writeError.index])`, for indices in range.
unfoldable pub select : {Op : Type 0} → List ℕ → List Op → List Op
select [] ops = []
select (i ∷ is) ops =
    let rest = select is ops in elim (get_elem? ops i) [ none ↦ rest | some op ↦ op ∷ rest ]

-- It returns, or throws the error of a call: with the operations of that call that failed.
pub data Outcome (Op : Type 0) : Type 0 where
  done : Outcome Op
  thrown : List Op → Outcome Op

abbrev pub remaining : {Op : Type 0} → Outcome Op → List Op
remaining done = []
remaining (thrown ops) = ops

-- The wait before the next attempt, in milliseconds.
abbrev pub retry_delay : ℕ → ℕ
retry_delay attempt = 200 * 2 ^ attempt

abbrev pub max_bulk_write_retries : ℕ
max_bulk_write_retries = 3

module _ {Op : Type 0} (d : Driver Op) where
  open d use {Store, bulk_write}

  -- The first argument is `MAX_BULK_WRITE_RETRIES - attempt`. The numbers are the waits.
  unfoldable pub retry : ℕ → List Op → Store → Store × Outcome Op × List ℕ
  retry zero ops s =
      let (s', r) = bulk_write ops s in
      elim r [
        | written ↦ (s', done, [])
        | other_error ↦ (s', thrown ops, [])
        | write_errors [] ↦ (s', thrown ops, [])
        | write_errors (i ∷ is) ↦ (s', thrown (select (i ∷ is) ops), [])
      ]
  retry (suc left) ops s =
      let (s', r) = bulk_write ops s in
      elim r [
        | written ↦ (s', done, [])
        | other_error ↦ (s', thrown ops, [])
        | write_errors [] ↦ (s', thrown ops, [])
        | write_errors (i ∷ is) ↦
            let (s'', outcome, waits) = retry left (select (i ∷ is) ops) s' in
            (s'', outcome, retry_delay (max_bulk_write_retries - suc left) ∷ waits)
      ]

  unfoldable pub bulk_write_with_retry : List Op → Store → Store × Outcome Op × List ℕ
  bulk_write_with_retry ops s = retry max_bulk_write_retries ops s
