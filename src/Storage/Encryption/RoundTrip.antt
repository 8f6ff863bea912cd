-- ===== src/Storage/Encryption/RoundTrip.antt =====
-- What `encryptBytes` wrote, `decryptBytes` reads back, whatever version is active by then.
use Prim.Native.String.{◌++◌}
use datamaster.Prelude.{
  ◌≡◌, ◌≢◌, refl, sym, ap, ◌∙◌, Option, some, [], ◌∷◌, String, String_discrete, if_neg, arith,
}
use datamaster.JsMap
use datamaster.Storage.Text.{or_else, normalize_version, normalize_version-or_else}
use datamaster.Storage.Encryption.Written.{
  aes_name, pub_name, encrypt_symmetric-eq-ok, encrypt_asymmetric-eq-ok,
}
use datamaster.Storage.Encryption.{
  Helpers, EncryptSettings, EncryptType, symmetric, asymmetric, Env, Metadata, ok, require_env,
  encrypt_bytes, decrypt_bytes, encrypt_symmetric, encrypt_asymmetric, decrypt_symmetric,
  decrypt_asymmetric, by_kind, recorded_version, object_version, require_wrapped_key,
}

-- An environment that can decrypt what another one encrypts under a version: it has the same AES
-- key, or the private key of the other's public key.
abbrev pub CanDecrypt :
    {Bytes Seed : Type 0} → Helpers Bytes Seed → EncryptType → Option String → Env → Env → Type 0
CanDecrypt h symmetric version env env' =
    env' ("DATA_AES_KEY" ++ normalize_version version)
    ≡ env ("DATA_AES_KEY" ++ normalize_version version)
CanDecrypt h asymmetric version env env' =
    (public : String) × (private : String) × (key : String) × (key' : String) × (env
        ("DATA_RSA_PUB" ++ normalize_version version)
      ≡ some key)
    × (h.atob key ≡ some public)
    × (env' ("DATA_RSA_KEY" ++ normalize_version version) ≡ some key')
    × (key' ≢ "")
    × (h.atob key' ≡ some private)
    × h.IsKeyPair public private

require_env-eq-ok :
    (env : Env) (name : String) {key : String} → require_env env name ≡ ok key → env name ≡ some key
unfolding require_env
require_env-eq-ok env name e = ground arith

some_same : {A : Type 0} {a a' : A} → some a ≡ some a' → a ≡ a'
some_same e = cc

require_env_same :
    (env env' : Env) (name : String)
    → env' name ≡ env name
    → require_env env' name ≡ require_env env name
unfolding require_env
require_env_same env env' name e = rw (e, require_env) refl

require_env-some :
    (env : Env) (name key : String) → env name ≡ some key → key ≢ "" → require_env env name ≡ ok key
unfolding require_env
require_env-some env name key e ne = rw (e, require_env) (if_neg (String_discrete key "") ne _ _)

module _ {Bytes Seed : Type 0} (h : Helpers Bytes Seed) (env : Env) where
  open h use {
    to_base64, of_base64, to_bytes, of_bytes, atob, generate_aes_key, encrypt_aes, decrypt_aes,
    rsa_encrypt, rsa_decrypt,
  }

  decrypt_symmetric_ok :
      (c : Bytes) (m : Metadata) (key text : String)
      → require_env env ("DATA_AES_KEY" ++ normalize_version (object_version m)) ≡ ok key
      → decrypt_aes (of_bytes c) key ≡ some text
      → decrypt_symmetric h env c m ≡ ok (of_base64 text)
  unfolding decrypt_symmetric
  decrypt_symmetric_ok c m key text has_key decrypted =
      rw (has_key, decrypted, decrypt_symmetric) refl

  decrypt_asymmetric_ok :
      (c : Bytes) (m : Metadata) (wrapped stored private key text : String)
      → require_wrapped_key h env m ≡ ok wrapped
      → require_env env ("DATA_RSA_KEY" ++ normalize_version (object_version m)) ≡ ok stored
      → atob stored ≡ some private
      → rsa_decrypt wrapped private ≡ some key
      → decrypt_aes (of_bytes c) key ≡ some text
      → decrypt_asymmetric h env c m ≡ ok (of_base64 text)
  unfolding decrypt_asymmetric
  decrypt_asymmetric_ok c m wrapped stored private key text has_wrapped has_key decoded unwrapped
        decrypted =
      rw (has_wrapped, has_key, decoded, unwrapped, decrypted, decrypt_asymmetric) refl

object_version-recorded :
    (v : String) (others : Metadata)
    → object_version (("encryption-version", v) ∷ others) ≡ some (or_else (some v) "v0")
unfolding JsMap.get String_discrete
object_version-recorded v others = refl

wrapped_key-recorded :
    {Bytes Seed : Type 0} (h : Helpers Bytes Seed) (env : Env) (v wrapped : String)
    → wrapped ≢ ""
    → require_wrapped_key h env (("encryption-version", v) ∷ ("wrapped-key", wrapped) ∷ [])
      ≡ ok wrapped
unfolding JsMap.get String_discrete
wrapped_key-recorded h env v wrapped ne = if_neg (String_discrete wrapped "") ne _ _

-- The version that decryption finds names the keys of the version that encryption used.
version-recorded :
    (settings : EncryptSettings) (others : Metadata)
    → normalize_version
        (object_version (("encryption-version", recorded_version settings) ∷ others))
      ≡ normalize_version settings.version
version-recorded settings others =
    ap normalize_version (object_version-recorded (recorded_version settings) others)
    ∙ normalize_version-or_else settings.version

module _ {Bytes Seed : Type 0} (h : Helpers Bytes Seed) (env env' : Env) where
  decrypt_symmetric-encrypt :
      (seed : Seed) (plaintext : Bytes) (settings : EncryptSettings) (c : Bytes) (m : Metadata)
      → CanDecrypt h symmetric settings.version env env'
      → encrypt_symmetric h env seed plaintext settings ≡ ok (c, m)
      → decrypt_symmetric h env' c m ≡ ok plaintext
  decrypt_symmetric-encrypt seed plaintext settings c m same e =
      let (key, text, has_key, encrypted, result) =
        encrypt_symmetric-eq-ok h env seed plaintext settings (c, m) e in
      let is_c : c ≡ h.to_bytes text = ap (λ r. r.0) result in
      let is_m : m ≡ ("encryption-version", recorded_version settings) ∷ [] =
        ap (λ r. r.1) result in
      rw (is_c, is_m)
        (decrypt_symmetric_ok h env' (h.to_bytes text) _ key (h.to_base64 plaintext)
            (rw (version-recorded settings [])
              (require_env_same env env' (aes_name h env settings) same ∙ has_key))
            (rw (h.bytes_lem text) (h.aes_lem seed (h.to_base64 plaintext) key text encrypted))
          ∙ ap ok (h.base64_lem plaintext))

  decrypt_asymmetric-encrypt :
      (seed : Seed) (plaintext : Bytes) (settings : EncryptSettings) (c : Bytes) (m : Metadata)
      → CanDecrypt h asymmetric settings.version env env'
      → encrypt_asymmetric h env seed plaintext settings ≡ ok (c, m)
      → decrypt_asymmetric h env' c m ≡ ok plaintext
  decrypt_asymmetric-encrypt seed plaintext settings c m
        (public, private, stored, stored', set, decoded, set', nonempty, decoded', pair) e =
      let (text, wrapped, stored0, public0, set0, decoded0, encrypted, w0, result) =
        encrypt_asymmetric-eq-ok h env seed plaintext settings (c, m) e in
      let same_key : stored0 ≡ stored =
        some_same (sym (require_env-eq-ok env (pub_name h env settings) set0) ∙ set) in
      let same_public : public0 ≡ public =
        some_same (sym decoded0 ∙ ap h.atob same_key ∙ decoded) in
      let w : h.rsa_encrypt seed (h.generate_aes_key seed) public ≡ some wrapped =
        rw (← same_public) w0 in
      let is_c : c ≡ h.to_bytes text = ap (λ r. r.0) result in
      let is_m : m
          ≡ ("encryption-version", recorded_version settings) ∷ ("wrapped-key", wrapped) ∷ [] =
        ap (λ r. r.1) result in
      let key = h.generate_aes_key seed in
      rw (is_c, is_m)
        (decrypt_asymmetric_ok h env' (h.to_bytes text) _ wrapped stored' private key
            (h.to_base64 plaintext)
            (wrapped_key-recorded h env' (recorded_version settings) wrapped
              (h.rsa_nonempty seed key public wrapped w))
            (rw (version-recorded settings (("wrapped-key", wrapped) ∷ [])) (
              require_env-some env' ("DATA_RSA_KEY" ++ normalize_version settings.version) stored'
                set' nonempty))
            decoded' (h.rsa_lem seed key public private wrapped pair w)
            (rw (h.bytes_lem text) (h.aes_lem seed (h.to_base64 plaintext) key text encrypted))
          ∙ ap ok (h.base64_lem plaintext))

  decrypt_bytes-kind :
      (kind : EncryptType) (seed : Seed) (plaintext : Bytes) (settings : EncryptSettings)
      (c : Bytes) (m : Metadata)
      → CanDecrypt h kind settings.version env env'
      → by_kind kind
          (encrypt_symmetric h env seed plaintext settings)
          (encrypt_asymmetric h env seed plaintext settings)
        ≡ ok (c, m)
      → by_kind kind (decrypt_symmetric h env' c m) (decrypt_asymmetric h env' c m) ≡ ok plaintext
  decrypt_bytes-kind symmetric seed plaintext settings c m can e =
      decrypt_symmetric-encrypt seed plaintext settings c m can e
  decrypt_bytes-kind asymmetric seed plaintext settings c m can e =
      decrypt_asymmetric-encrypt seed plaintext settings c m can e

  -- What `encryptBytes` returns, `decryptBytes` turns back into the plaintext, under settings of
  -- the same kind with whatever version, in any environment that has the key of the version that
  -- was used to encrypt.
  pub decrypt_bytes-encrypt_bytes :
      (seed : Seed) (plaintext : Bytes) (settings settings' : EncryptSettings) (c : Bytes)
      (m : Metadata)
      → settings'.kind ≡ settings.kind
      → CanDecrypt h settings.kind settings.version env env'
      → encrypt_bytes h env seed plaintext settings ≡ ok (c, m)
      → decrypt_bytes h env' c settings' m ≡ ok plaintext
  unfolding encrypt_bytes decrypt_bytes
  decrypt_bytes-encrypt_bytes seed plaintext settings settings' c m same can e =
      ap (λ k. by_kind k (decrypt_symmetric h env' c m) (decrypt_asymmetric h env' c m)) same
      ∙ decrypt_bytes-kind settings.kind seed plaintext settings c m can e

  -- Other metadata in front makes no difference to decryption.
  pub decrypt_bytes_checksum :
      (c : Bytes) (settings : EncryptSettings) (checksum : String) (m : Metadata)
      → decrypt_bytes h env c settings (("checksum", checksum) ∷ m)
        ≡ decrypt_bytes h env c settings m
  unfolding decrypt_bytes decrypt_symmetric decrypt_asymmetric JsMap.get String_discrete
  decrypt_bytes_checksum c settings checksum m = refl
