-- ===== src/Tests/Mongo.antt =====
-- The statics of Mongo models on small inputs: documents and operations are numbers.
use datamaster.Prelude.{
  ℕ, zero, suc, ◌≤◌, ◌<◌, ◌≡◌, ◌⊎◌, inl, inr, refl, none, some, List, [], ◌∷◌, ◌++◌, length,
  get_elem?, All, All-map, arith,
}
use mathlib.Core.List.{flatten}
use datamaster.Mongo.Pagination
use datamaster.Mongo.Pagination.{paginate, follow, after}
use datamaster.Mongo.Pagination.Traversal.{IsSorted, flatten-follow}
use datamaster.Mongo.BulkWrite
use datamaster.Mongo.BulkWrite.{
  Among, Driver, Reply, written, write_errors, remaining, bulk_write_with_retry, done,
}
use datamaster.Mongo.BulkWrite.Applied.{bulk_write_with_retry-Settled}

abbrev found : List ℕ
found = 1 ∷ 2 ∷ 4 ∷ 7 ∷ 9 ∷ []

pages : follow (λ d. d) 5 2 none found ≡ (1 ∷ 2 ∷ []) ∷ (4 ∷ 7 ∷ []) ∷ (9 ∷ []) ∷ []
unfolding follow Pagination.paginate_cursor after
pages = refl

found-IsSorted : IsSorted (λ d. d) found
found-IsSorted = ground arith

flatten-follow_example : flatten (follow (λ d. d) 5 2 none found) ≡ found
unfolding after
flatten-follow_example =
    flatten-follow (λ d. d) 5 2 none found found-IsSorted (omega arith) (omega arith)

-- A driver whose first write to an empty collection fails.
abbrev write : {A : Type 0} → List A → List A → List A × Reply
write [] s = (s, written)
write (op ∷ ops) [] = (ops, write_errors (0 ∷ []))
write (op ∷ ops) (x ∷ s) = ((op ∷ ops) ++ x ∷ s, written)

pub Among-append_right : {A : Type 0} (x : A) (l m : List A) → Among x m → Among x (l ++ m)
Among-append_right x [] m h = h
Among-append_right x (y ∷ l) m h = inr (Among-append_right x l m h)

pub All-Among_append : {A : Type 0} (l m : List A) → All (λ op. Among op (l ++ m)) l
All-Among_append [] m = tt
All-Among_append (x ∷ l) m = (
  inl refl,
  All-map (λ y. Among y (l ++ m)) (λ y. Among y (x ∷ l ++ m)) (λ y h. inr h) l
      (All-Among_append l m),
)

pub Among-element : {A : Type 0} (i : ℕ) (x : A) (l : List A) → get_elem? l i ≡ some x → Among x l
Among-element i x [] e = cc
Among-element zero x (y ∷ l) e = inl (cc)
Among-element (suc i) x (y ∷ l) e = inr (Among-element i x l e)

pub write-written :
    {A : Type 0} (ops s : List A)
    → (write ops s).1 ≡ written
    → All (λ op. Among op (write ops s).0) ops
write-written [] s e = tt
write-written (op ∷ ops) [] e = cc
write-written (op ∷ ops) (x ∷ s) e = All-Among_append (op ∷ ops) (x ∷ s)

pub write-errors :
    {A : Type 0} (ops s : List A) (is : List ℕ)
    → (write ops s).1 ≡ write_errors is
    → (i : ℕ) (op : A) → get_elem? ops i ≡ some op
    → Among i is ⊎ Among op (write ops s).0
write-errors [] s is e i op at = cc
write-errors (x ∷ ops) [] is e zero op at = inl (let same : is ≡ 0 ∷ [] = cc in rw same (inl refl))
write-errors (x ∷ ops) [] is e (suc i) op at = inr (Among-element i op ops at)
write-errors (x ∷ ops) (y ∷ s) is e i op at = cc

pub write-range :
    {A : Type 0} (ops s : List A) (is : List ℕ)
    → (write ops s).1 ≡ write_errors is
    → All (λ i. i < length ops) is
write-range [] s is e = cc
write-range (x ∷ ops) [] is e = let same : is ≡ 0 ∷ [] = cc in rw same ((omega arith), tt)
write-range (x ∷ ops) (y ∷ s) is e = cc

pub write-keep : {A : Type 0} (ops s : List A) (op : A) → Among op s → Among op (write ops s).0
write-keep [] s op h = h
write-keep (x ∷ ops) [] op h = absurd h
write-keep (x ∷ ops) (y ∷ s) op h = Among-append_right op (x ∷ ops) (y ∷ s) h

unfoldable pub driver : (A : Type 0) → Driver A
driver A = record {
  Store = List A;
  IsApplied = λ op s. Among op s;
  bulk_write = write;
  written_lem = write-written;
  errors_lem = write-errors;
  range_lem = write-range;
  keep_lem = write-keep;
}

empty : Driver.Store (driver ℕ)
unfolding driver
empty = []

retried : (bulk_write_with_retry (driver ℕ) (7 ∷ 8 ∷ []) empty).1 ≡ done
unfolding bulk_write_with_retry BulkWrite.retry BulkWrite.select driver empty
retried = refl

bulk_write_with_retry-Settled_example :
    All
      (λ op.
        Driver.IsApplied (driver ℕ) op (bulk_write_with_retry (driver ℕ) (7 ∷ 8 ∷ []) empty).0
        ⊎ Among op (remaining (bulk_write_with_retry (driver ℕ) (7 ∷ 8 ∷ []) empty).1))
      (7 ∷ 8 ∷ [])
    × (length (bulk_write_with_retry (driver ℕ) (7 ∷ 8 ∷ []) empty).2 ≤ 3)
bulk_write_with_retry-Settled_example = bulk_write_with_retry-Settled (driver ℕ) (7 ∷ 8 ∷ []) empty
