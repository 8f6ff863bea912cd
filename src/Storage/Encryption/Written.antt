-- ===== src/Storage/Encryption/Written.antt =====
-- modules/storage/encryption.ts: what an encryption that returns has done, and its metadata.
use Prim.Native.String.{◌++◌}
use datamaster.Prelude.{◌≡◌, ◌⊎◌, refl, ap, inl, inr, Option-cases, some, [], ◌∷◌, String}
use datamaster.Storage.Text.{normalize_version}
use datamaster.Storage.Encryption.{
  Helpers, EncryptSettings, EncryptType, symmetric, asymmetric, Env, Metadata, Result, StorageError,
  ok, throw, require_env, encrypt_bytes, encrypt_symmetric, encrypt_asymmetric, by_kind,
  recorded_version,
}

pub Result-cases :
    {A : Type 0} (r : Result A) → ((a : A) × (r ≡ ok a)) ⊎ ((e : StorageError) × (r ≡ throw e))
Result-cases (ok a) = inl (a, refl)
Result-cases (throw e) = inr (e, refl)

module _ {Bytes Seed : Type 0} (h : Helpers Bytes Seed) (env : Env) where
  open h use {
    to_base64, of_base64, to_bytes, of_bytes, atob, generate_aes_key, encrypt_aes, decrypt_aes,
    rsa_encrypt, rsa_decrypt,
  }

  abbrev pub aes_name : EncryptSettings → String
  aes_name settings = "DATA_AES_KEY" ++ normalize_version settings.version

  -- What an encryption that succeeded has done.
  pub encrypt_symmetric-eq-ok :
      (seed : Seed) (plaintext : Bytes) (settings : EncryptSettings) (r : Bytes × Metadata)
      → encrypt_symmetric h env seed plaintext settings ≡ ok r
      → (key : String) × (text : String) × (require_env env (aes_name settings) ≡ ok key)
        × (encrypt_aes seed (to_base64 plaintext) key ≡ some text)
        × (r ≡ (to_bytes text, ("encryption-version", recorded_version settings) ∷ []))
  unfolding encrypt_symmetric
  encrypt_symmetric-eq-ok seed plaintext settings r e =
      elim (Result-cases (require_env env (aes_name settings))) [
        | inr (err, bad) ↦ let e' = (rw (bad, encrypt_symmetric) at e) in absurd (cc)
        | inl (key, good) ↦ elim (Option-cases (encrypt_aes seed (to_base64 plaintext) key)) [
          | inl nothing ↦ let e' = (rw (good, nothing, encrypt_symmetric) at e) in absurd (cc)
          | inr (text, something) ↦
              let e' = (rw (good, something, encrypt_symmetric) at e) in
              (key, text, good, something, cc)
        ]
      ]

  abbrev pub pub_name : EncryptSettings → String
  pub_name settings = "DATA_RSA_PUB" ++ normalize_version settings.version

  pub encrypt_asymmetric-eq-ok :
      (seed : Seed) (plaintext : Bytes) (settings : EncryptSettings) (r : Bytes × Metadata)
      → encrypt_asymmetric h env seed plaintext settings ≡ ok r
      → (text : String) × (wrapped : String) × (stored : String) × (public : String) × (require_env
            env
            (pub_name settings)
          ≡ ok stored)
        × (atob stored ≡ some public)
        × (encrypt_aes seed (to_base64 plaintext) (generate_aes_key seed) ≡ some text)
        × (rsa_encrypt seed (generate_aes_key seed) public ≡ some wrapped)
        × (r ≡ (
          to_bytes text,
          ("encryption-version", recorded_version settings) ∷ ("wrapped-key", wrapped) ∷ [],
        ))
  unfolding encrypt_asymmetric
  encrypt_asymmetric-eq-ok seed plaintext settings r e =
      elim (Option-cases (encrypt_aes seed (to_base64 plaintext) (generate_aes_key seed))) [
        | inl nothing ↦ let e' = (rw (nothing, encrypt_asymmetric) at e) in absurd (cc)
        | inr (text, encrypted) ↦ elim (Result-cases (require_env env (pub_name settings))) [
          | inr (err, bad) ↦ let e' = (rw (encrypted, bad, encrypt_asymmetric) at e) in absurd (cc)
          | inl (stored, set) ↦ elim (Option-cases (atob stored)) [
            | inl nothing ↦
                let e' = (rw (encrypted, set, nothing, encrypt_asymmetric) at e) in absurd (cc)
            | inr (public, decoded) ↦
                elim (Option-cases (rsa_encrypt seed (generate_aes_key seed) public)) [
                  | inl nothing ↦
                      let e' = (rw (encrypted, set, decoded, nothing, encrypt_asymmetric) at e) in
                      absurd (cc)
                  | inr (wrapped, w) ↦
                      let e' = (rw (encrypted, set, decoded, w, encrypt_asymmetric) at e) in
                      (text, wrapped, stored, public, set, decoded, encrypted, w, cc)
                ]
          ]
        ]
      ]

  encrypted-version_kind :
      (kind : EncryptType) (seed : Seed) (plaintext : Bytes) (settings : EncryptSettings)
      (c : Bytes) (m : Metadata)
      → by_kind kind
          (encrypt_symmetric h env seed plaintext settings)
          (encrypt_asymmetric h env seed plaintext settings)
        ≡ ok (c, m)
      → (others : Metadata) × (m ≡ ("encryption-version", recorded_version settings) ∷ others)
  encrypted-version_kind symmetric seed plaintext settings c m e =
      let (_, _, _, _, result) = encrypt_symmetric-eq-ok seed plaintext settings (c, m) e in
      (_, ap (λ r. r.1) result)
  encrypted-version_kind asymmetric seed plaintext settings c m e =
      let (_, _, _, _, _, _, _, _, result) =
        encrypt_asymmetric-eq-ok seed plaintext settings (c, m) e in
      (_, ap (λ r. r.1) result)

  -- The metadata of an encryption starts with the version.
  pub encrypt_bytes-version :
      (seed : Seed) (plaintext : Bytes) (settings : EncryptSettings) (c : Bytes) (m : Metadata)
      → encrypt_bytes h env seed plaintext settings ≡ ok (c, m)
      → (others : Metadata) × (m ≡ ("encryption-version", recorded_version settings) ∷ others)
  unfolding encrypt_bytes
  encrypt_bytes-version seed plaintext settings c m e =
      encrypted-version_kind settings.kind seed plaintext settings c m e
