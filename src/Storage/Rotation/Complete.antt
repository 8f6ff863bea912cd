-- ===== src/Storage/Rotation/Complete.antt =====
-- rotation-core.ts: a rotation without failures, and the check that follows it.
use mathlib.Core.Path.{subst}
use datamaster.Prelude.{
  ℕ, ◌≡◌, ◌≢◌, ◌⊎◌, inl, inr, refl, sym, ap, ◌∙◌, false, Option, some, List, [], ◌∷◌, ◌++◌, String,
  String_discrete, All, append-nil, append_assoc,
}
use datamaster.Storage.Encryption.{Helpers, EncryptSettings, Env, StorageError, recorded_version}
use datamaster.Storage.Bucket.{Bucket}
use datamaster.Storage.Rotation.{
  Outcome, migrated, skipped, failed, count_outcome, Totals, rotate_key, rotate_keys,
}
use datamaster.Storage.Rotation.Settled.{IsSettled, IsDone, rotate_key-IsSettled}
use datamaster.Storage.Rotation.Writes.{rotate_key-other}

count_outcome-failed :
    (key : String) (o : Outcome) (t : Totals)
    → (l : List (String × StorageError)) × ((count_outcome key o t).failed ≡ t.failed ++ l)
unfolding count_outcome
count_outcome-failed key migrated t = ([], sym (append-nil t.failed))
count_outcome-failed key skipped t = ([], sym (append-nil t.failed))
count_outcome-failed key (failed e) t = ((key, e) ∷ [], refl)

nil-append_left : {A : Type 0} (l l' : List A) → l ++ l' ≡ [] → l ≡ []
nil-append_left [] l' e = refl
nil-append_left (x ∷ l) l' e = cc

not-nil-snoc : {A : Type 0} (l : List A) (x : A) → l ++ x ∷ [] ≢ []
not-nil-snoc [] x e = cc
not-nil-snoc (y ∷ l) x e = cc

module _ {Bytes Seed : Type 0} (h : Helpers Bytes Seed) (byte_length : Bytes → ℕ)
    (checksum_of : Bytes → String) (b : Bucket Bytes) (env : Env) where
  open b use {Store, objects}

  IsDone-count_outcome :
      (key : String) (o : Outcome) (t : Totals)
      → (count_outcome key o t).failed ≡ []
      → IsDone h byte_length checksum_of b env o
  unfolding count_outcome
  IsDone-count_outcome key migrated t e = tt
  IsDone-count_outcome key skipped t e = tt
  IsDone-count_outcome key (failed err) t e = absurd (not-nil-snoc t.failed (key, err) e)

  rotate_keys-failed :
      (encrypt : Option EncryptSettings) (active : String) (seeds : String → Seed)
      (keys : List String) (s : Store) (t : Totals)
      → (l : List (String × StorageError)) × ((rotate_keys h byte_length checksum_of b env encrypt
            active false seeds
            (λ _ x. x)
            keys
            s
            t).1.failed
          ≡ t.failed ++ l)
  unfolding rotate_keys
  rotate_keys-failed encrypt active seeds [] s t = ([], sym (append-nil t.failed))
  rotate_keys-failed encrypt active seeds (key ∷ keys) s t =
      let (s', o) =
        rotate_key h byte_length checksum_of b env encrypt active false (seeds key) (λ x. x) key
          s in
      let (l, e) = count_outcome-failed key o t in
      let (l', e') = rotate_keys-failed encrypt active seeds keys s' (count_outcome key o t) in
      (l ++ l', e' ∙ ap (λ x. x ++ l') e ∙ append_assoc t.failed l l')

  -- A step of the loop, in a run that ends without failures.
  step-IsSettled :
      (settings : EncryptSettings) (seeds : String → Seed) (key q : String) (s : Store) (t : Totals)
      → IsDone h byte_length checksum_of b env
          (rotate_key h byte_length checksum_of b env
            (some settings)
            (recorded_version settings)
            false
            (seeds key)
            (λ x. x)
            key
            s).1
      → (key ≡ q) ⊎ IsSettled h byte_length checksum_of b env (recorded_version settings) q s
      → IsSettled h byte_length checksum_of b env
          (recorded_version settings)
          q
          (rotate_key h byte_length checksum_of b env
            (some settings)
            (recorded_version settings)
            false
            (seeds key)
            (λ x. x)
            key
            s).0
  step-IsSettled settings seeds key q s t done before = elim (String_discrete key q) [
    | yes p ↦
        subst
          (λ q.
            IsSettled h byte_length checksum_of b env (recorded_version settings) q
              (rotate_key h byte_length checksum_of b env (some settings)
                (recorded_version settings) false (seeds key) (λ x. x) key s).0)
          p (rotate_key-IsSettled h byte_length checksum_of b env settings (seeds key) key s done)
    | no p ↦ elim before [
      | inl same ↦ absurd (p same)
      | inr settled ↦ λ o there. settled o (
          sym (
            rotate_key-other h byte_length checksum_of b env (some settings)
              (recorded_version settings) (seeds key) key q s p)
          ∙ there)
    ]
  ]

  IsDone-first :
      (settings : EncryptSettings) (seeds : String → Seed) (key : String) (keys : List String)
      (s : Store) (t : Totals)
      → (rotate_keys h byte_length checksum_of b env
          (some settings)
          (recorded_version settings)
          false
          seeds
          (λ _ x. x)
          (key ∷ keys)
          s
          t).1.failed
        ≡ []
      → IsDone h byte_length checksum_of b env
          (rotate_key h byte_length checksum_of b env
            (some settings)
            (recorded_version settings)
            false
            (seeds key)
            (λ x. x)
            key
            s).1
  unfolding rotate_keys
  IsDone-first settings seeds key keys s t e =
      let (s', o) =
        rotate_key h byte_length checksum_of b env (some settings) (recorded_version settings) false
          (seeds key) (λ x. x) key s in
      let (l, e') =
        rotate_keys-failed (some settings) (recorded_version settings) seeds keys s'
          (count_outcome key o t) in
      IsDone-count_outcome key o t (nil-append_left _ l (sym e' ∙ e))

  keep-IsSettled :
      (settings : EncryptSettings) (seeds : String → Seed) (q : String) (keys : List String)
      (s : Store) (t : Totals)
      → (rotate_keys h byte_length checksum_of b env
          (some settings)
          (recorded_version settings)
          false
          seeds
          (λ _ x. x)
          keys
          s
          t).1.failed
        ≡ []
      → IsSettled h byte_length checksum_of b env (recorded_version settings) q s
      → IsSettled h byte_length checksum_of b env
          (recorded_version settings)
          q
          (rotate_keys h byte_length checksum_of b env
            (some settings)
            (recorded_version settings)
            false
            seeds
            (λ _ x. x)
            keys
            s
            t).0
  unfolding rotate_keys
  keep-IsSettled settings seeds q [] s t e settled = settled
  keep-IsSettled settings seeds q (key ∷ keys) s t e settled =
      keep-IsSettled settings seeds q keys _ _ e (
        step-IsSettled settings seeds key q s t (IsDone-first settings seeds key keys s t e)
          (inr settled))

  pub rotate_keys-IsSettled :
      (settings : EncryptSettings) (seeds : String → Seed) (keys : List String) (s : Store)
      (t : Totals)
      → (rotate_keys h byte_length checksum_of b env
          (some settings)
          (recorded_version settings)
          false
          seeds
          (λ _ x. x)
          keys
          s
          t).1.failed
        ≡ []
      → All
          (λ q.
            IsSettled h byte_length checksum_of b env
              (recorded_version settings)
              q
              (rotate_keys h byte_length checksum_of b env
                (some settings)
                (recorded_version settings)
                false
                seeds
                (λ _ x. x)
                keys
                s
                t).0)
          keys
  unfolding rotate_keys
  rotate_keys-IsSettled settings seeds [] s t e = tt
  rotate_keys-IsSettled settings seeds (key ∷ keys) s t e = (
    keep-IsSettled settings seeds key keys _ _ e (
        step-IsSettled settings seeds key key s t (IsDone-first settings seeds key keys s t e)
          (inl refl)),
    rotate_keys-IsSettled settings seeds keys _ _ e,
  )
