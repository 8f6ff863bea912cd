-- ===== src/Storage/Rotation/Writes.antt =====
-- rotation-core.ts: what the rotation of a key writes.
use mathlib.Core.Path.{subst}
use datamaster.Prelude.{
  ℕ, ◌≡◌, ◌≢◌, ◌⊎◌, inl, inr, refl, sym, ap, ◌∙◌, false, Option, none, some, String, if_pos, if_neg,
  String_discrete,
}
use datamaster.JsMap
use datamaster.Storage.Encryption.{Helpers, EncryptSettings, Env}
use datamaster.Storage.Encryption.Written.{Result-cases}
use datamaster.Storage.Bucket.{Bucket}
use datamaster.Storage.Connector.{ObjectMetadata, get_metadata, get, put}
use datamaster.Storage.Rotation.{
  Outcome, rotate_key, rotate_found, write_back, write_if_current, migrate,
}
use datamaster.Storage.Rotation.Stored.{put-other}

module _ {Bytes Seed : Type 0} (h : Helpers Bytes Seed) (byte_length : Bytes → ℕ)
    (checksum_of : Bytes → String) (b : Bucket Bytes) (env : Env)
    (encrypt : Option EncryptSettings) where
  open b use {Store, objects}

  -- The only write of a rotation is a `put` of the key.
  IsWritten : Seed → String → Store → Store → Type 0
  IsWritten seed key s s' =
      (s' ≡ s)
      ⊎ ((plaintext : Bytes) × (content_type : String) × (s'
            ≡ (put h byte_length checksum_of b env encrypt seed key plaintext content_type s).0))

  unwritten : (seed : Seed) (key : String) (s : Store) → IsWritten seed key s s
  unfolding IsWritten
  unwritten seed key s = inl refl

  write_if_current-IsWritten :
      (seed : Seed) (key : String) (before : ObjectMetadata) (plaintext : Bytes)
      (content_type : String) (s : Store)
      → IsWritten seed key s
          (write_if_current h byte_length checksum_of b env encrypt seed key before plaintext
            content_type s).0
  unfolding write_if_current write_back IsWritten
  write_if_current-IsWritten seed key before plaintext content_type s =
      elim (Result-cases (get_metadata h byte_length checksum_of b env encrypt key s)) [
        | inr (err, bad) ↦ rw (bad, write_if_current) (inl refl)
        | inl (none, nothing) ↦ rw (nothing, write_if_current) (inl refl)
        | inl (some still, something) ↦ elim (String_discrete still.checksum before.checksum) [
          | yes p ↦ inr (
            plaintext,
            content_type,
            rw (something, write_if_current)
                (ap (λ (r : Store × Outcome). r.0)
                  (if_pos (String_discrete still.checksum before.checksum) p _ _)),
          )
          | no p ↦ inl (
              rw (something, write_if_current)
                (ap (λ (r : Store × Outcome). r.0)
                  (if_neg (String_discrete still.checksum before.checksum) p _ _)))
        ]
      ]

  migrate-IsWritten :
      (seed : Seed) (key : String) (before : ObjectMetadata) (s : Store)
      → IsWritten seed key s
          (migrate h byte_length checksum_of b env encrypt seed (λ x. x) key before s).0
  unfolding migrate IsWritten
  migrate-IsWritten seed key before s =
      elim (Result-cases (get h byte_length checksum_of b env encrypt key s)) [
        | inr (err, bad) ↦ rw (bad, migrate) (inl refl)
        | inl (none, nothing) ↦ rw (nothing, migrate) (inl refl)
        | inl (some (plaintext, object), something) ↦
            rw (something, migrate)
              (write_if_current-IsWritten seed key before plaintext object.content_type s)
      ]

  rotate_found-IsWritten :
      (active : String) (seed : Seed) (key : String) (before : ObjectMetadata)
      (version : Option String) (s : Store)
      → IsWritten seed key s
          (rotate_found h byte_length checksum_of b env encrypt active false seed
            (λ x. x)
            key
            before
            version
            s).0
  unfolding rotate_found
  rotate_found-IsWritten active seed key before none s = migrate-IsWritten seed key before s
  rotate_found-IsWritten active seed key before (some v) s = elim (String_discrete v active) [
    | yes p ↦
        subst (λ (r : Store × Outcome). IsWritten seed key s r.0)
          (sym (if_pos (String_discrete v active) p _ _)) (unwritten seed key s)
    | no p ↦
        subst (λ (r : Store × Outcome). IsWritten seed key s r.0)
          (sym (if_neg (String_discrete v active) p _ _)) (migrate-IsWritten seed key before s)
  ]

  rotate_key-IsWritten :
      (active : String) (seed : Seed) (key : String) (s : Store)
      → IsWritten seed key s
          (rotate_key h byte_length checksum_of b env encrypt active false seed (λ x. x) key s).0
  unfolding rotate_key
  rotate_key-IsWritten active seed key s =
      elim (Result-cases (get_metadata h byte_length checksum_of b env encrypt key s)) [
        | inr (err, bad) ↦ rw (bad, rotate_key) (unwritten seed key s)
        | inl (none, nothing) ↦ rw (nothing, rotate_key) (unwritten seed key s)
        | inl (some before, something) ↦
            rw (something, rotate_key)
              (rotate_found-IsWritten active seed key before before.encryption_version s)
      ]

  pub rotate_key-other :
      (active : String) (seed : Seed) (key q : String) (s : Store)
      → key ≢ q
      → JsMap.get String_discrete q (
          objects
            (rotate_key h byte_length checksum_of b env encrypt active false seed (λ x. x) key s).0)
        ≡ JsMap.get String_discrete q (objects s)
  unfolding IsWritten
  rotate_key-other active seed key q s ne = elim (rotate_key-IsWritten active seed key s) [
    | inl same ↦ ap (λ s'. JsMap.get String_discrete q (objects s')) same
    | inr (plaintext, content_type, is_put) ↦
        ap (λ s'. JsMap.get String_discrete q (objects s')) is_put
        ∙ put-other h byte_length checksum_of b env encrypt seed key q plaintext content_type s ne
  ]
