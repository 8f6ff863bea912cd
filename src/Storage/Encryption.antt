-- ===== src/Storage/Encryption.antt =====
-- modules/storage/encryption.ts: `encryptBytes` and `decryptBytes`.
pub mod Written
pub mod RoundTrip
use Prim.Native.String.{◌++◌}
use mathlib.Core.Option
use datamaster.Prelude.{◌≡◌, ◌≢◌, Option, none, some, List, [], ◌∷◌, String, String_discrete, ite}
use datamaster.JsMap
use datamaster.Storage.Text.{or_else, normalize_version}

pub data StorageError : Type 0 where
  missing_env : String → StorageError
  missing_wrapped_key crypto_failed request_failed encryption_disabled : StorageError

pub data Result (A : Type 0) : Type 0 where
  ok : A → Result A
  throw : StorageError → Result A

infixl 5 ◌>>=◌
abbrev pub ◌>>=◌ : {A B : Type 0} → Result A → (A → Result B) → Result B
ok a >>= f = f a
throw e >>= f = throw e

-- What the modules use of `@zanix/helpers`, and `atob`; `Seed` is the randomness that a call draws.
-- `none` is a thrown error: a key that is none, or a text that is no ciphertext of it.
pub record Helpers (Bytes Seed : Type 0) : Type 1 where
  pub to_base64 : Bytes → String
  pub of_base64 : String → Bytes
  pub to_bytes : String → Bytes
  pub of_bytes : Bytes → String
  pub atob : String → Option String
  pub generate_aes_key : Seed → String
  pub encrypt_aes : Seed → String → String → Option String
  pub decrypt_aes : String → String → Option String
  pub rsa_encrypt : Seed → String → String → Option String
  pub rsa_decrypt : String → String → Option String
  pub IsKeyPair : String → String → Type 0
  pub base64_lem : (b : Bytes) → of_base64 (to_base64 b) ≡ b
  pub bytes_lem : (t : String) → of_bytes (to_bytes t) ≡ t
  pub aes_lem : (r : Seed) (t k c : String) → encrypt_aes r t k ≡ some c → decrypt_aes c k ≡ some t
  pub rsa_lem :
      (r : Seed) (t public private c : String)
      → IsKeyPair public private
      → rsa_encrypt r t public ≡ some c
      → rsa_decrypt c private ≡ some t
  pub rsa_nonempty : (r : Seed) (t public c : String) → rsa_encrypt r t public ≡ some c → c ≢ ""

pub data EncryptType : Type 0 where
  symmetric asymmetric : EncryptType

-- A branch on `settings.type`.
abbrev pub by_kind : {A : Type 0} → EncryptType → A → A → A
by_kind symmetric a b = a
by_kind asymmetric a b = b

pub record EncryptSettings : Type 0 where
  pub kind : EncryptType
  pub version : Option String

abbrev pub Metadata : Type 0
Metadata = List (String × String)

abbrev pub Env : Type 0
Env = String → Option String

-- `requireEnv`
unfoldable pub require_env : Env → String → Result String
require_env env name = elim (env name) [
  | none ↦ throw (missing_env name)
  | some value ↦ ite (String_discrete value "") (throw (missing_env name)) (ok value)
]

abbrev pub or_fail : {A : Type 0} → Option A → Result A
or_fail none = throw crypto_failed
or_fail (some a) = ok a

-- `settings.version ?? 'v0'`
abbrev pub recorded_version : EncryptSettings → String
recorded_version settings = Option.get_or settings.version "v0"

-- The version that `decryptBytes` takes from an object's metadata.
abbrev pub object_version : Metadata → Option String
object_version metadata =
    some (or_else (JsMap.get String_discrete "encryption-version" metadata) "v0")

module _ {Bytes Seed : Type 0} (h : Helpers Bytes Seed) (env : Env) where
  open h use {
    to_base64, of_base64, to_bytes, of_bytes, atob, generate_aes_key, encrypt_aes, decrypt_aes,
    rsa_encrypt, rsa_decrypt,
  }

  unfoldable pub encrypt_asymmetric : Seed → Bytes → EncryptSettings → Result (Bytes × Metadata)
  encrypt_asymmetric seed plaintext settings = do
    let object_key = generate_aes_key seed
    ciphertext ← or_fail (encrypt_aes seed (to_base64 plaintext) object_key)
    rsa_public_key ← require_env env ("DATA_RSA_PUB" ++ normalize_version settings.version)
    public ← or_fail (atob rsa_public_key)
    wrapped_key ← or_fail (rsa_encrypt seed object_key public)
    ok (
      to_bytes ciphertext,
      ("encryption-version", recorded_version settings) ∷ ("wrapped-key", wrapped_key) ∷ [],
    )

  unfoldable pub encrypt_symmetric : Seed → Bytes → EncryptSettings → Result (Bytes × Metadata)
  encrypt_symmetric seed plaintext settings = do
    aes_key ← require_env env ("DATA_AES_KEY" ++ normalize_version settings.version)
    ciphertext ← or_fail (encrypt_aes seed (to_base64 plaintext) aes_key)
    ok (to_bytes ciphertext, ("encryption-version", recorded_version settings) ∷ [])

  unfoldable pub encrypt_bytes : Seed → Bytes → EncryptSettings → Result (Bytes × Metadata)
  encrypt_bytes seed plaintext settings =
      by_kind settings.kind (encrypt_symmetric seed plaintext settings)
        (encrypt_asymmetric seed plaintext settings)

  -- `metadata[WRAPPED_KEY_METADATA]`, which must not be empty.
  abbrev pub require_wrapped_key : Metadata → Result String
  require_wrapped_key metadata = elim (JsMap.get String_discrete "wrapped-key" metadata) [
    | none ↦ throw missing_wrapped_key
    | some key ↦ ite (String_discrete key "") (throw missing_wrapped_key) (ok key)
  ]

  unfoldable pub decrypt_asymmetric : Bytes → Metadata → Result Bytes
  decrypt_asymmetric ciphertext metadata = do
    wrapped_key ← require_wrapped_key metadata
    rsa_private_key ←
        require_env env ("DATA_RSA_KEY" ++ normalize_version (object_version metadata))
    private ← or_fail (atob rsa_private_key)
    object_key ← or_fail (rsa_decrypt wrapped_key private)
    plaintext ← or_fail (decrypt_aes (of_bytes ciphertext) object_key)
    ok (of_base64 plaintext)

  unfoldable pub decrypt_symmetric : Bytes → Metadata → Result Bytes
  decrypt_symmetric ciphertext metadata = do
    aes_key ← require_env env ("DATA_AES_KEY" ++ normalize_version (object_version metadata))
    plaintext ← or_fail (decrypt_aes (of_bytes ciphertext) aes_key)
    ok (of_base64 plaintext)

  unfoldable pub decrypt_bytes : Bytes → EncryptSettings → Metadata → Result Bytes
  decrypt_bytes ciphertext settings metadata =
      by_kind settings.kind (decrypt_symmetric ciphertext metadata)
        (decrypt_asymmetric ciphertext metadata)
