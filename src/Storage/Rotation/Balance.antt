-- ===== src/Storage/Rotation/Balance.antt =====
-- The counters that `runRotate` returns, and runs that write nothing.
use datamaster.Prelude.{
  ℕ, ◌+◌, ◌≤◌, ◌≡◌, inl, inr, refl, ap, ◌∙◌, Bool, true, Option, none, some, List, [], ◌∷◌, ◌++◌,
  String, arith, length, length-append, if_pos, if_neg, String_discrete,
}
use datamaster.Storage.Encryption.{Helpers, EncryptSettings, Env, Result, ok}
use datamaster.Storage.Encryption.Written.{Result-cases}
use datamaster.Storage.Bucket.{Bucket}
use datamaster.Storage.Connector.{ObjectMetadata, get_metadata}
use mathlib.Core.List.{flatten}
use datamaster.Storage.Rotation.Walk.{Serves, run_rotate-rotate_keys}
use datamaster.Storage.Rotation.{
  Outcome, migrated, skipped, failed, count_outcome, Totals, no_totals, rotate_key, rotate_found,
  rotate_keys, run_rotate, Page, require_active_version,
}

-- Every key that was scanned was migrated, skipped or failed, and was reported once.
pub record IsBalanced (t : Totals) : Type 0 where
  pub accounted : t.scanned ≡ t.migrated + t.skipped + length t.failed
  pub reported : length t.reports ≡ t.scanned

length-snoc : {A : Type 0} (l : List A) (x : A) → length (l ++ x ∷ []) ≡ length l + 1
length-snoc l x = length-append l (x ∷ [])

count_outcome-IsBalanced :
    (key : String) (o : Outcome) (t : Totals) → IsBalanced t → IsBalanced (count_outcome key o t)
unfolding count_outcome
count_outcome-IsBalanced key migrated t h = record {
  accounted = let e = h.accounted in omega arith;
  reported = length-snoc t.reports _ ∙ ap (λ n. n + 1) h.reported;
}
count_outcome-IsBalanced key skipped t h = record {
  accounted = let e = h.accounted in omega arith;
  reported = length-snoc t.reports _ ∙ ap (λ n. n + 1) h.reported;
}
count_outcome-IsBalanced key (failed e) t h = record {
  accounted = let e' = h.accounted in let one_more = length-snoc t.failed (key, e) in omega arith;
  reported = length-snoc t.reports _ ∙ ap (λ n. n + 1) h.reported;
}

scanned-count_outcome :
    (key : String) (o : Outcome) (t : Totals) → (count_outcome key o t).scanned ≡ t.scanned + 1
unfolding count_outcome
scanned-count_outcome key migrated t = refl
scanned-count_outcome key skipped t = refl
scanned-count_outcome key (failed e) t = refl

module _ {Bytes Seed : Type 0} (h : Helpers Bytes Seed) (byte_length : Bytes → ℕ)
    (checksum_of : Bytes → String) (b : Bucket Bytes) (env : Env)
    (encrypt : Option EncryptSettings) where
  open b use {Store}

  rotate_keys-IsBalanced :
      (active : String) (dry_run : Bool) (seeds : String → Seed) (others : String → Store → Store)
      (keys : List String) (s : Store) (t : Totals)
      → IsBalanced t
      → IsBalanced
          (rotate_keys h byte_length checksum_of b env encrypt active dry_run seeds others keys s
            t).1
        × ((rotate_keys h byte_length checksum_of b env encrypt active dry_run seeds others keys s
              t).1.scanned
            ≡ t.scanned + length keys)
  unfolding rotate_keys
  rotate_keys-IsBalanced active dry_run seeds others [] s t w = (w, omega arith)
  rotate_keys-IsBalanced active dry_run seeds others (key ∷ keys) s t w =
      let (s', o) =
        rotate_key h byte_length checksum_of b env encrypt active dry_run (seeds key) (others key)
          key s in
      let (balanced, scanned) =
        rotate_keys-IsBalanced active dry_run seeds others keys s' (count_outcome key o t)
          (count_outcome-IsBalanced key o t w) in
      let one_more = scanned-count_outcome key o t in (balanced, omega arith)

  rotate_found_dry :
      (active : String) (seed : Seed) (others : Store → Store) (key : String)
      (before : ObjectMetadata) (version : Option String) (s : Store)
      → (rotate_found h byte_length checksum_of b env encrypt active true seed others key before
          version s).0
        ≡ s
  unfolding rotate_found
  rotate_found_dry active seed others key before none s = refl
  rotate_found_dry active seed others key before (some v) s = elim (String_discrete v active) [
    | yes p ↦ ap (λ (r : Store × Outcome). r.0) (if_pos (String_discrete v active) p _ _)
    | no p ↦ ap (λ (r : Store × Outcome). r.0) (if_neg (String_discrete v active) p _ _)
  ]

  rotate_key_dry :
      (active : String) (seed : Seed) (others : Store → Store) (key : String) (s : Store)
      → (rotate_key h byte_length checksum_of b env encrypt active true seed others key s).0 ≡ s
  unfolding rotate_key
  rotate_key_dry active seed others key s =
      elim (Result-cases (get_metadata h byte_length checksum_of b env encrypt key s)) [
        | inr (err, bad) ↦ rw (bad, rotate_key) refl
        | inl (none, nothing) ↦ rw (nothing, rotate_key) refl
        | inl (some before, something) ↦
            rw (something, rotate_key)
              (rotate_found_dry active seed others key before before.encryption_version s)
      ]

  rotate_keys_dry :
      (active : String) (seeds : String → Seed) (others : String → Store → Store)
      (keys : List String) (s : Store) (t : Totals)
      → (rotate_keys h byte_length checksum_of b env encrypt active true seeds others keys s t).0
        ≡ s
  unfolding rotate_keys
  rotate_keys_dry active seeds others [] s t = refl
  rotate_keys_dry active seeds others (key ∷ keys) s t =
      rotate_keys_dry active seeds others keys _ _
      ∙ rotate_key_dry active (seeds key) (others key) key s

  -- Where the listing serves some pages and there is fuel for them, a run of an instance that
  -- encrypts returns: it has scanned as many keys as the pages hold, each of them was migrated,
  -- skipped or failed, and each was reported once.
  pub run_rotate-IsBalanced :
      (list_page : Option String → Store → Result Page) (active : String) (dry_run : Bool)
      (seeds : String → Seed) (others : String → Store → Store) (pages : List (List String))
      (fuel : ℕ) (s : Store)
      → require_active_version encrypt ≡ ok active
      → Serves list_page none pages
      → length pages ≤ fuel
      → (s' : Store) × (t : Totals) × (run_rotate h byte_length checksum_of b env encrypt list_page
            dry_run seeds others fuel s
          ≡ some (s', ok t))
        × (t.scanned ≡ length (flatten pages))
        × IsBalanced t
  run_rotate-IsBalanced list_page active dry_run seeds others pages fuel s version serves enough =
      let start : IsBalanced no_totals = record { accounted = refl; reported = refl } in
      let (balanced, scanned) =
        rotate_keys-IsBalanced active dry_run seeds others (flatten pages) s no_totals start in
      (
        _,
        _,
        run_rotate-rotate_keys h byte_length checksum_of b env encrypt list_page active dry_run
            seeds others pages fuel s version serves enough,
        scanned ∙ (omega arith),
        balanced,
      )

  -- A dry run writes nothing.
  pub run_rotate_dry :
      (list_page : Option String → Store → Result Page) (active : String) (seeds : String → Seed)
      (others : String → Store → Store) (pages : List (List String)) (fuel : ℕ) (s : Store)
      → require_active_version encrypt ≡ ok active
      → Serves list_page none pages
      → length pages ≤ fuel
      → (t : Totals) × (run_rotate h byte_length checksum_of b env encrypt list_page true seeds
            others fuel s
          ≡ some (s, ok t))
  run_rotate_dry list_page active seeds others pages fuel s version serves enough = (
    _,
    run_rotate-rotate_keys h byte_length checksum_of b env encrypt list_page active true seeds
          others pages fuel s version serves enough
        ∙ ap
            (λ x. some (
              x,
              ok
                  (rotate_keys h byte_length checksum_of b env encrypt active true seeds others
                    (flatten pages) s no_totals).1,
            ))
            (rotate_keys_dry active seeds others (flatten pages) s no_totals),
  )
