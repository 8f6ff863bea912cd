-- ===== src/Mongo/BulkWrite/Applied.antt =====
-- What `bulkWriteWithRetry` has written when it ends.
use datamaster.Prelude.{
  ℕ, zero, suc, ◌≤◌, ◌≡◌, ◌⊎◌, inl, inr, refl, some, List, [], ◌∷◌, length, get_elem?, All, All-map,
  Option-cases, arith,
}
use datamaster.Mongo.BulkWrite.{
  Among, Reply, written, write_errors, other_error, Driver, select, remaining, retry,
  bulk_write_with_retry,
}

All-elements :
    {A : Type 0} (P : A → Type 0) (l : List A)
    → ((i : ℕ) (x : A) → get_elem? l i ≡ some x → P x)
    → All P l
All-elements P [] h = tt
All-elements P (x ∷ l) h = (h zero x refl, All-elements P l (λ i y e. h (suc i) y e))

All-Among : {A : Type 0} (P : A → Type 0) (l : List A) (x : A) → All P l → Among x l → P x
All-Among P [] x h m = absurd m
All-Among P (y ∷ l) x h (inl e) = rw e h.0
All-Among P (y ∷ l) x h (inr m) = All-Among P l x h.1 m

All-self : {A : Type 0} (l : List A) → All (λ x. Among x l) l
All-self [] = tt
All-self (x ∷ l) =
    (inl refl, All-map (λ y. Among y l) (λ y. Among y (x ∷ l)) (λ y m. inr m) l (All-self l))

select-Among :
    {Op : Type 0} (i : ℕ) (op : Op) (is : List ℕ) (ops : List Op)
    → get_elem? ops i ≡ some op
    → Among i is
    → Among op (select is ops)
unfolding select
select-Among i op [] ops e m = absurd m
select-Among i op (j ∷ is) ops e (inl same) =
    let here : get_elem? ops j ≡ some op = rw (← same) e in rw (here, select) (inl refl)
select-Among i op (j ∷ is) ops e (inr m) = elim (Option-cases (get_elem? ops j)) [
  | inl nothing ↦ rw (nothing, select) (select-Among i op is ops e m)
  | inr (x, something) ↦ rw (something, select) (inr (select-Among i op is ops e m))
]

Reply-cases :
    (r : Reply) → (r ≡ written) ⊎ (r ≡ other_error) ⊎ ((is : List ℕ) × (r ≡ write_errors is))
Reply-cases written = inl refl
Reply-cases other_error = inr (inl refl)
Reply-cases (write_errors is) = inr (inr (is, refl))

module _ {Op : Type 0} (d : Driver Op) where
  open d use {Store, IsApplied, bulk_write, written_lem, errors_lem, keep_lem}

  -- Applied, or among the operations that the error is about.
  abbrev Settled : Store → List Op → Op → Type 0
  Settled s rest op = IsApplied op s ⊎ Among op rest

  call_written :
      (ops : List Op) (s : Store)
      → (bulk_write ops s).1 ≡ written
      → All (Settled (bulk_write ops s).0 []) ops
  call_written ops s e =
      All-map (λ op. IsApplied op (bulk_write ops s).0) (Settled (bulk_write ops s).0 [])
        (λ op a. inl a) ops (written_lem ops s e)

  All-thrown : (ops : List Op) (s : Store) → All (Settled s ops) ops
  All-thrown ops s = All-map (λ op. Among op ops) (Settled s ops) (λ op m. inr m) ops (All-self ops)

  call_errors :
      (ops : List Op) (s : Store) (is : List ℕ)
      → (bulk_write ops s).1 ≡ write_errors is
      → All (Settled (bulk_write ops s).0 (select is ops)) ops
  call_errors ops s is e =
      All-elements (Settled (bulk_write ops s).0 (select is ops)) ops (λ i op at.
        elim (errors_lem ops s is e i op at) [
          | inl m ↦ inr (select-Among i op is ops at m)
          | inr a ↦ inl a
        ])

  retry_keep :
      (left : ℕ) (ops : List Op) (s : Store) (op : Op)
      → IsApplied op s
      → IsApplied op (retry d left ops s).0
  unfolding retry
  retry_keep zero ops s op a = elim (Reply-cases (bulk_write ops s).1) [
    | inl e ↦ rw (e, retry) (keep_lem ops s op a)
    | inr (inl e) ↦ rw (e, retry) (keep_lem ops s op a)
    | inr (inr ([], e)) ↦ rw (e, retry) (keep_lem ops s op a)
    | inr (inr (i ∷ is, e)) ↦ rw (e, retry) (keep_lem ops s op a)
  ]
  retry_keep (suc left) ops s op a = elim (Reply-cases (bulk_write ops s).1) [
    | inl e ↦ rw (e, retry) (keep_lem ops s op a)
    | inr (inl e) ↦ rw (e, retry) (keep_lem ops s op a)
    | inr (inr ([], e)) ↦ rw (e, retry) (keep_lem ops s op a)
    | inr (inr (i ∷ is, e)) ↦
        rw (e, retry)
          (retry_keep left (select (i ∷ is) ops) (bulk_write ops s).0 op (keep_lem ops s op a))
  ]

  -- What a further attempt leaves, of the operations of the call before it.
  further :
      (left : ℕ) (ops retried : List Op) (s : Store)
      → All (Settled s retried) ops
      → All (Settled (retry d left retried s).0 (remaining (retry d left retried s).1)) retried
      → All (Settled (retry d left retried s).0 (remaining (retry d left retried s).1)) ops
  further left ops retried s before later =
      All-map (Settled s retried)
        (Settled (retry d left retried s).0 (remaining (retry d left retried s).1))
        (λ op settled. elim settled [
          | inl a ↦ inl (retry_keep left retried s op a)
          | inr m ↦
              All-Among (Settled (retry d left retried s).0 (remaining (retry d left retried s).1))
                retried op later m
        ])
        ops before

  retry-Settled :
      (left : ℕ) (ops : List Op) (s : Store)
      → All (Settled (retry d left ops s).0 (remaining (retry d left ops s).1)) ops
  unfolding retry
  retry-Settled zero ops s = elim (Reply-cases (bulk_write ops s).1) [
    | inl e ↦ rw (e, retry) (call_written ops s e)
    | inr (inl e) ↦ rw (e, retry) (All-thrown ops (bulk_write ops s).0)
    | inr (inr ([], e)) ↦ rw (e, retry) (All-thrown ops (bulk_write ops s).0)
    | inr (inr (i ∷ is, e)) ↦ rw (e, retry) (call_errors ops s (i ∷ is) e)
  ]
  retry-Settled (suc left) ops s = elim (Reply-cases (bulk_write ops s).1) [
    | inl e ↦ rw (e, retry) (call_written ops s e)
    | inr (inl e) ↦ rw (e, retry) (All-thrown ops (bulk_write ops s).0)
    | inr (inr ([], e)) ↦ rw (e, retry) (All-thrown ops (bulk_write ops s).0)
    | inr (inr (i ∷ is, e)) ↦
        rw (e, retry)
          (further left ops (select (i ∷ is) ops) (bulk_write ops s).0
            (call_errors ops s (i ∷ is) e)
            (retry-Settled left (select (i ∷ is) ops) (bulk_write ops s).0))
  ]

  retry-waits : (left : ℕ) (ops : List Op) (s : Store) → length (retry d left ops s).2 ≤ left
  unfolding retry
  retry-waits zero ops s = elim (Reply-cases (bulk_write ops s).1) [
    | inl e ↦ rw (e, retry) (omega arith)
    | inr (inl e) ↦ rw (e, retry) (omega arith)
    | inr (inr ([], e)) ↦ rw (e, retry) (omega arith)
    | inr (inr (i ∷ is, e)) ↦ rw (e, retry) (omega arith)
  ]
  retry-waits (suc left) ops s = elim (Reply-cases (bulk_write ops s).1) [
    | inl e ↦ rw (e, retry) (omega arith)
    | inr (inl e) ↦ rw (e, retry) (omega arith)
    | inr (inr ([], e)) ↦ rw (e, retry) (omega arith)
    | inr (inr (i ∷ is, e)) ↦
        let h = retry-waits left (select (i ∷ is) ops) (bulk_write ops s).0 in
        rw (e, retry) (omega arith)
  ]

  -- `bulkWriteWithRetry` waits at most three times. When it ends, every operation was applied or is
  -- among those that the error it throws is about; so if it returns, all of them were applied.
  pub bulk_write_with_retry-Settled :
      (ops : List Op) (s : Store)
      → All
          (λ op.
            IsApplied op (bulk_write_with_retry d ops s).0
            ⊎ Among op (remaining (bulk_write_with_retry d ops s).1))
          ops
        × (length (bulk_write_with_retry d ops s).2 ≤ 3)
  unfolding bulk_write_with_retry
  bulk_write_with_retry-Settled ops s = (retry-Settled 3 ops s, retry-waits 3 ops s)
