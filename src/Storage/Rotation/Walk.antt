-- ===== src/Storage/Rotation/Walk.antt =====
-- `walkKeys` of rotation-core.ts: the runs go through every page, once and in order.
use mathlib.Core.List.{flatten}
use datamaster.Prelude.{
  ℕ, zero, suc, ◌≤◌, ◌≡◌, ◌≢◌, append-nil, inl, inr, refl, sym, ap, ◌∙◌, Bool, Option, none, some,
  List, [], ◌∷◌, ◌++◌, String, arith, length, if_neg, String_discrete,
}
use datamaster.Storage.Encryption.{
  Helpers, EncryptSettings, Env, Result, ok, throw, StorageError, ◌>>=◌,
}
use datamaster.Storage.Encryption.Written.{Result-cases}
use datamaster.Storage.Connector.{get_metadata}
use datamaster.Storage.Bucket.{Bucket}
use datamaster.Storage.Rotation.{
  Totals, no_totals, rotate_keys, rotate_pages, run_rotate, Page, Status, check_keys, check_pages,
  run_check, require_active_version, no_objects, count_object,
}

-- From a token on, the listing serves these pages, whatever is written meanwhile.
abbrev pub Serves :
    {S : Type 0} → (Option String → S → Result Page) → Option String → List (List String) → Type 0
Serves list_page token [] = ⊥
Serves {S} list_page token (keys ∷ []) =
    (s : S) → list_page token s ≡ ok (record { keys = keys; next = none })
Serves {S} list_page token (keys ∷ more ∷ pages) =
    (next : String) × (next ≢ "")
    × ((s : S) → list_page token s ≡ ok (record { keys = keys; next = some next }))
    × Serves list_page (some next) (more ∷ pages)

module _ {Bytes Seed : Type 0} (h : Helpers Bytes Seed) (byte_length : Bytes → ℕ)
    (checksum_of : Bytes → String) (b : Bucket Bytes) (env : Env)
    (encrypt : Option EncryptSettings) where
  open b use {Store}

  rotate_keys-append :
      (active : String) (dry_run : Bool) (seeds : String → Seed) (others : String → Store → Store)
      (keys keys' : List String) (s : Store) (t : Totals)
      → rotate_keys h byte_length checksum_of b env encrypt active dry_run seeds others
          (keys ++ keys')
          s
          t
        ≡ (let (s', t') =
              rotate_keys h byte_length checksum_of b env encrypt active dry_run seeds others keys s
                t in
            rotate_keys h byte_length checksum_of b env encrypt active dry_run seeds others keys' s'
              t')
  unfolding rotate_keys
  rotate_keys-append active dry_run seeds others [] keys' s t = refl
  rotate_keys-append active dry_run seeds others (key ∷ keys) keys' s t =
      rotate_keys-append active dry_run seeds others keys keys' _ _

  rotate_pages_last :
      (list_page : Option String → Store → Result Page) (active : String) (dry_run : Bool)
      (seeds : String → Seed) (others : String → Store → Store) (keys : List String)
      (token : Option String) (fuel : ℕ) (s : Store) (t : Totals)
      → list_page token s ≡ ok (record { keys = keys; next = none })
      → rotate_pages h byte_length checksum_of b env encrypt list_page active dry_run seeds others
          (suc fuel)
          token
          s
          t
        ≡ (let (s', t') =
              rotate_keys h byte_length checksum_of b env encrypt active dry_run seeds others keys s
                t in
            some (s', ok t'))
  unfolding rotate_pages
  rotate_pages_last list_page active dry_run seeds others keys token fuel s t served =
      rw (served, rotate_pages) refl

  rotate_pages_next :
      (list_page : Option String → Store → Result Page) (active : String) (dry_run : Bool)
      (seeds : String → Seed) (others : String → Store → Store) (keys : List String) (next : String)
      (token : Option String) (fuel : ℕ) (s : Store) (t : Totals)
      → list_page token s ≡ ok (record { keys = keys; next = some next })
      → next ≢ ""
      → rotate_pages h byte_length checksum_of b env encrypt list_page active dry_run seeds others
          (suc fuel)
          token
          s
          t
        ≡ (let (s', t') =
              rotate_keys h byte_length checksum_of b env encrypt active dry_run seeds others keys s
                t in
            rotate_pages h byte_length checksum_of b env encrypt list_page active dry_run seeds
              others fuel
              (some next)
              s'
              t')
  unfolding rotate_pages
  rotate_pages_next list_page active dry_run seeds others keys next token fuel s t served ne =
      rw (served, rotate_pages) (if_neg (String_discrete next "") ne _ _)

  -- Where the listing serves some pages, so much fuel as there are pages is enough, and the run is
  -- the loop over all their keys.
  rotate_pages-Serves :
      (list_page : Option String → Store → Result Page) (active : String) (dry_run : Bool)
      (seeds : String → Seed) (others : String → Store → Store) (pages : List (List String))
      (token : Option String) (fuel : ℕ) (s : Store) (t : Totals)
      → Serves list_page token pages
      → length pages ≤ fuel
      → rotate_pages h byte_length checksum_of b env encrypt list_page active dry_run seeds others
          fuel token s t
        ≡ (let (s', t') =
              rotate_keys h byte_length checksum_of b env encrypt active dry_run seeds others
                (flatten pages)
                s
                t in
            some (s', ok t'))
  unfolding flatten
  rotate_pages-Serves list_page active dry_run seeds others [] token fuel s t serves enough =
      absurd serves
  rotate_pages-Serves list_page active dry_run seeds others (keys ∷ pages) token zero s t serves
        enough =
      absurd (omega arith)
  rotate_pages-Serves list_page active dry_run seeds others (keys ∷ []) token (suc fuel) s t serves
        enough =
      rw (append-nil keys)
        (rotate_pages_last list_page active dry_run seeds others keys token fuel s t (serves s))
  rotate_pages-Serves list_page active dry_run seeds others (keys ∷ more ∷ pages) token (suc fuel) s
        t (next, ne, served, rest) enough =
      rotate_pages_next list_page active dry_run seeds others keys next token fuel s t (served s) ne
      ∙ rotate_pages-Serves list_page active dry_run seeds others (more ∷ pages) (some next) fuel _
          _ rest (omega arith)
      ∙ ap (λ (r : Store × Totals). some (r.0, ok r.1))
          (sym (rotate_keys-append active dry_run seeds others keys (flatten (more ∷ pages)) s t))

  -- Where the listing serves some pages, as much fuel as there are pages is enough, and `runRotate`
  -- of an instance that encrypts is the loop over all their keys, in order.
  pub run_rotate-rotate_keys :
      (list_page : Option String → Store → Result Page) (active : String) (dry_run : Bool)
      (seeds : String → Seed) (others : String → Store → Store) (pages : List (List String))
      (fuel : ℕ) (s : Store)
      → require_active_version encrypt ≡ ok active
      → Serves list_page none pages
      → length pages ≤ fuel
      → run_rotate h byte_length checksum_of b env encrypt list_page dry_run seeds others fuel s ≡ (
          let (s', t') =
            rotate_keys h byte_length checksum_of b env encrypt active dry_run seeds others
              (flatten pages)
              s
              no_totals in
          some (s', ok t'))
  unfolding run_rotate
  run_rotate-rotate_keys list_page active dry_run seeds others pages fuel s version serves enough =
      rw (version, run_rotate)
        (rotate_pages-Serves list_page active dry_run seeds others pages none fuel s no_totals
          serves enough)

  check_keys-append :
      (active : String) (keys keys' : List String) (s : Store) (t : Status)
      → check_keys h byte_length checksum_of b env encrypt active (keys ++ keys') s t ≡ (
          check_keys h byte_length checksum_of b env encrypt active keys s t >>= λ t'.
          check_keys h byte_length checksum_of b env encrypt active keys' s t')
  unfolding check_keys
  check_keys-append active [] keys' s t = refl
  check_keys-append active (key ∷ keys) keys' s t =
      elim (Result-cases (get_metadata h byte_length checksum_of b env encrypt key s)) [
        | inr (err, bad) ↦ rw (bad, check_keys) refl
        | inl (m, good) ↦
            rw (good, check_keys) (check_keys-append active keys keys' s (count_object active m t))
      ]

  check_pages_last :
      (list_page : Option String → Store → Result Page) (active : String) (keys : List String)
      (token : Option String) (fuel : ℕ) (s : Store) (t : Status)
      → list_page token s ≡ ok (record { keys = keys; next = none })
      → check_pages h byte_length checksum_of b env encrypt list_page active (suc fuel) token s t
        ≡ some (check_keys h byte_length checksum_of b env encrypt active keys s t)
  unfolding check_pages
  check_pages_last list_page active keys token fuel s t served =
      elim (Result-cases (check_keys h byte_length checksum_of b env encrypt active keys s t)) [
        | inr (err, bad) ↦ rw (served, bad, check_pages) refl
        | inl (t', good) ↦ rw (served, good, check_pages) refl
      ]

  check_pages_next :
      (list_page : Option String → Store → Result Page) (active : String) (keys : List String)
      (next : String) (token : Option String) (fuel : ℕ) (s : Store) (t t' : Status)
      → list_page token s ≡ ok (record { keys = keys; next = some next })
      → next ≢ ""
      → check_keys h byte_length checksum_of b env encrypt active keys s t ≡ ok t'
      → check_pages h byte_length checksum_of b env encrypt list_page active (suc fuel) token s t
        ≡ check_pages h byte_length checksum_of b env encrypt list_page active fuel (some next) s t'
  unfolding check_pages
  check_pages_next list_page active keys next token fuel s t t' served ne good =
      rw (served, good, check_pages) (if_neg (String_discrete next "") ne _ _)

  check_pages_throw :
      (list_page : Option String → Store → Result Page) (active : String) (page : Page)
      (token : Option String) (fuel : ℕ) (s : Store) (t : Status) (e : StorageError)
      → list_page token s ≡ ok page
      → check_keys h byte_length checksum_of b env encrypt active page.keys s t ≡ throw e
      → check_pages h byte_length checksum_of b env encrypt list_page active (suc fuel) token s t
        ≡ some (throw e)
  unfolding check_pages
  check_pages_throw list_page active page token fuel s t e served bad =
      rw (served, bad, check_pages) refl

  check_pages-Serves :
      (list_page : Option String → Store → Result Page) (active : String)
      (pages : List (List String)) (token : Option String) (fuel : ℕ) (s : Store) (t : Status)
      → Serves list_page token pages
      → length pages ≤ fuel
      → check_pages h byte_length checksum_of b env encrypt list_page active fuel token s t
        ≡ some (check_keys h byte_length checksum_of b env encrypt active (flatten pages) s t)
  unfolding flatten
  check_pages-Serves list_page active [] token fuel s t serves enough = absurd serves
  check_pages-Serves list_page active (keys ∷ pages) token zero s t serves enough =
      absurd (omega arith)
  check_pages-Serves list_page active (keys ∷ []) token (suc fuel) s t serves enough =
      rw (append-nil keys) (check_pages_last list_page active keys token fuel s t (serves s))
  check_pages-Serves list_page active (keys ∷ more ∷ pages) token (suc fuel) s t
        (next, ne, served, rest) enough =
      elim (Result-cases (check_keys h byte_length checksum_of b env encrypt active keys s t)) [
        | inr (err, bad) ↦
            check_pages_throw list_page active (record { keys = keys; next = some next }) token fuel
              s t err (served s) bad
            ∙ ap some
                (sym (check_keys-append active keys (flatten (more ∷ pages)) s t ∙ rw bad refl))
        | inl (t', good) ↦
            check_pages_next list_page active keys next token fuel s t t' (served s) ne good
            ∙ check_pages-Serves list_page active (more ∷ pages) (some next) fuel s t' rest
                (omega arith)
            ∙ ap some
                (sym (check_keys-append active keys (flatten (more ∷ pages)) s t ∙ rw good refl))
      ]

  -- Where the listing serves some pages, as much fuel as there are pages is enough, and `runCheck`
  -- of an instance that encrypts is the loop over all their keys, in order.
  pub run_check-check_keys :
      (list_page : Option String → Store → Result Page) (active : String)
      (pages : List (List String)) (fuel : ℕ) (s : Store)
      → require_active_version encrypt ≡ ok active
      → Serves list_page none pages
      → length pages ≤ fuel
      → run_check h byte_length checksum_of b env encrypt list_page fuel s
        ≡ some
            (check_keys h byte_length checksum_of b env encrypt active (flatten pages) s no_objects)
  unfolding run_check
  run_check-check_keys list_page active pages fuel s version serves enough =
      rw (version, run_check)
        (check_pages-Serves list_page active pages none fuel s no_objects serves enough)
