-- ===== src/Storage/Rotation/Settled.antt =====
-- After a rotation without failures, no key that it walked needs an old version.
use mathlib.Core.Path.{subst}
use datamaster.Prelude.{
  ℕ, ◌≡◌, inl, inr, refl, sym, ap, ◌∙◌, false, Option, none, some, String, if_pos, if_neg,
  String_discrete,
}
use mathlib.Core.Option
use datamaster.JsMap
use datamaster.JsMap.Laws.{get-set}
use datamaster.Storage.Encryption.{Helpers, EncryptSettings, Env, ok, recorded_version}
use datamaster.Storage.Encryption.Written.{Result-cases}
use datamaster.Storage.Bucket.{Bucket, Stored}
use datamaster.Storage.Connector.{ObjectMetadata, get_metadata, get, put, metadata_of, StoredObject}
use datamaster.Storage.Connector.RoundTrip.{put-eq-ok}
use datamaster.Storage.Rotation.Stored.{
  none_of-map, get_metadata-objects, get-none-objects, sealed-version,
}
use datamaster.Storage.Rotation.{
  Outcome, migrated, skipped, rotate_key, rotate_found, write_back, write_if_current, migrate,
}

module _ {Bytes Seed : Type 0} (h : Helpers Bytes Seed) (byte_length : Bytes → ℕ)
    (checksum_of : Bytes → String) (b : Bucket Bytes) (env : Env) where
  open b use {
    Store, objects, head_object, get_object, put_object, head_lem, get_lem, put_lem, put_failed_lem,
  }

  -- The key has no object, or one with the version.
  abbrev pub IsSettled : String → String → Store → Type 0
  IsSettled active key s =
      (o : Stored Bytes)
      → JsMap.get String_discrete key (objects s) ≡ some o
      → JsMap.get String_discrete "encryption-version" o.metadata ≡ some active

  -- The run goes on without a failure.
  abbrev pub IsDone : Outcome → Type 0
  IsDone migrated = Unit
  IsDone skipped = Unit
  IsDone (Outcome.failed e) = ⊥

  put-IsSettled :
      (settings : EncryptSettings) (seed : Seed) (key : String) (plaintext : Bytes)
      (content_type : String) (object : StoredObject) (s : Store)
      → (put h byte_length checksum_of b env (some settings) seed key plaintext content_type s).1
        ≡ ok object
      → IsSettled
          (recorded_version settings)
          key
          (put h byte_length checksum_of b env (some settings) seed key plaintext content_type s).0
  put-IsSettled settings seed key plaintext content_type object s sent o' there =
      let (o, is_sealed, written, _) =
        put-eq-ok h byte_length checksum_of b env env (some settings) seed key plaintext
          content_type object s sent in
      let stored =
        ap (JsMap.get String_discrete key) written
        ∙ get-set String_discrete key key o (objects s)
        ∙ if_pos (String_discrete key key) refl _ _ in
      let same : o' ≡ o = cc in
      rw same (
        sealed-version h byte_length checksum_of b env settings seed plaintext content_type o
          is_sealed)

  write_back-IsSettled :
      (settings : EncryptSettings) (seed : Seed) (key : String) (plaintext : Bytes)
      (content_type : String) (s : Store)
      → IsDone
          (write_back h byte_length checksum_of b env
            (some settings)
            seed
            key
            plaintext
            content_type
            s).1
      → IsSettled
          (recorded_version settings)
          key
          (write_back h byte_length checksum_of b env
            (some settings)
            seed
            key
            plaintext
            content_type
            s).0
  unfolding write_back
  write_back-IsSettled settings seed key plaintext content_type s done =
      elim (Result-cases
        (put h byte_length checksum_of b env (some settings) seed key plaintext content_type s).1) [
          | inl (object, sent) ↦
              put-IsSettled settings seed key plaintext content_type object s sent
          | inr (err, bad) ↦ absurd (rw (bad, write_back) at done)
        ]

  absent-IsSettled :
      (active key : String) (s : Store)
      → JsMap.get String_discrete key (objects s) ≡ none
      → IsSettled active key s
  absent-IsSettled active key s nothing o there = absurd (cc)

  none_metadata-IsSettled :
      (settings : EncryptSettings) (key : String) (s : Store)
      → get_metadata h byte_length checksum_of b env (some settings) key s ≡ ok none
      → IsSettled (recorded_version settings) key s
  none_metadata-IsSettled settings key s nothing o there =
      let e =
        get_metadata-objects h byte_length checksum_of b env (some settings) key s none nothing in
      absurd (none_of-map _ (JsMap.get String_discrete key (objects s)) o there e)

  metadata-IsSettled :
      (settings : EncryptSettings) (active key : String) (before : ObjectMetadata) (s : Store)
      → get_metadata h byte_length checksum_of b env (some settings) key s ≡ ok (some before)
      → before.encryption_version ≡ some active
      → IsSettled active key s
  metadata-IsSettled settings active key before s something version o there =
      let e : some before ≡ some (metadata_of h byte_length checksum_of b env (some settings) o) =
        get_metadata-objects h byte_length checksum_of b env (some settings) key s (some before)
          something
        ∙ ap (Option.map (metadata_of h byte_length checksum_of b env (some settings))) there in
      let same : before ≡ metadata_of h byte_length checksum_of b env (some settings) o = cc in
      ap (λ (x : ObjectMetadata). x.encryption_version) (sym same) ∙ version

  migrate-IsSettled :
      (settings : EncryptSettings) (seed : Seed) (key : String) (before : ObjectMetadata)
      (s : Store)
      → get_metadata h byte_length checksum_of b env (some settings) key s ≡ ok (some before)
      → IsDone
          (migrate h byte_length checksum_of b env (some settings) seed (λ x. x) key before s).1
      → IsSettled
          (recorded_version settings)
          key
          (migrate h byte_length checksum_of b env (some settings) seed (λ x. x) key before s).0
  unfolding migrate write_if_current
  migrate-IsSettled settings seed key before s has done =
      elim (Result-cases (get h byte_length checksum_of b env (some settings) key s)) [
        | inr (err, bad) ↦ absurd (rw (bad, migrate) at done)
        | inl (none, nothing) ↦
            rw (nothing, migrate)
              (absent-IsSettled _ key s
                (get-none-objects h byte_length checksum_of b env (some settings) key s nothing))
        | inl (some (plaintext, object), something) ↦
            let current =
              if_pos (String_discrete before.checksum before.checksum) refl
                (write_back h byte_length checksum_of b env (some settings) seed key plaintext
                  object.content_type s)
                (s, skipped) in
            rw (something, has, current, migrate, write_if_current)
              (write_back-IsSettled settings seed key plaintext object.content_type s
                (rw (something, has, current, migrate, write_if_current) at done))
      ]

  rotate_found-IsSettled :
      (settings : EncryptSettings) (seed : Seed) (key : String) (before : ObjectMetadata)
      (version : Option String) (s : Store)
      → get_metadata h byte_length checksum_of b env (some settings) key s ≡ ok (some before)
      → before.encryption_version ≡ version
      → IsDone
          (rotate_found h byte_length checksum_of b env
            (some settings)
            (recorded_version settings)
            false
            seed
            (λ x. x)
            key
            before
            version
            s).1
      → IsSettled
          (recorded_version settings)
          key
          (rotate_found h byte_length checksum_of b env
            (some settings)
            (recorded_version settings)
            false
            seed
            (λ x. x)
            key
            before
            version
            s).0
  unfolding rotate_found
  rotate_found-IsSettled settings seed key before none s has e done =
      migrate-IsSettled settings seed key before s has done
  rotate_found-IsSettled settings seed key before (some v) s has e done =
      elim (String_discrete v (recorded_version settings)) [
        | yes p ↦
            subst (λ (r : Store × Outcome). IsSettled (recorded_version settings) key r.0)
              (sym (if_pos (String_discrete v (recorded_version settings)) p _ _))
              (metadata-IsSettled settings (recorded_version settings) key before s has
                (e ∙ ap some p))
        | no p ↦
            let go_on =
              if_neg (String_discrete v (recorded_version settings)) p (s, skipped)
                (migrate h byte_length checksum_of b env (some settings) seed (λ x. x) key before
                  s) in
            subst (λ (r : Store × Outcome). IsSettled (recorded_version settings) key r.0)
              (sym go_on)
              (migrate-IsSettled settings seed key before s has
                (subst (λ (r : Store × Outcome). IsDone r.1) go_on done))
      ]

  pub rotate_key-IsSettled :
      (settings : EncryptSettings) (seed : Seed) (key : String) (s : Store)
      → IsDone
          (rotate_key h byte_length checksum_of b env
            (some settings)
            (recorded_version settings)
            false
            seed
            (λ x. x)
            key
            s).1
      → IsSettled
          (recorded_version settings)
          key
          (rotate_key h byte_length checksum_of b env
            (some settings)
            (recorded_version settings)
            false
            seed
            (λ x. x)
            key
            s).0
  unfolding rotate_key
  rotate_key-IsSettled settings seed key s done =
      elim (Result-cases (get_metadata h byte_length checksum_of b env (some settings) key s)) [
        | inr (err, bad) ↦ absurd (rw (bad, rotate_key) at done)
        | inl (none, nothing) ↦
            rw (nothing, rotate_key) (none_metadata-IsSettled settings key s nothing)
        | inl (some before, something) ↦
            rw (something, rotate_key)
              (rotate_found-IsSettled settings seed key before before.encryption_version s something
                refl (rw (something, rotate_key) at done))
      ]
