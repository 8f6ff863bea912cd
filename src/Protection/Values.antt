-- ===== src/Protection/Values.antt =====
-- utils/protection.ts and policies/protection.ts: masking and encryption with versioned keys, and
-- the setter and the getter of a protected field.
use Prim.Native.String.{◌++◌}
use datamaster.Prelude.{
  ◌≡◌, Bool, true, false, Option, none, some, List, map, String, String_discrete, ite,
  if◌then◌else◌,
}
use datamaster.JsMap
use datamaster.Storage.Text.{normalize_version}
use datamaster.Storage.Encryption.{Env, EncryptType, symmetric, asymmetric}
use datamaster.Protection.Version.{Value, one, many, append_version, extract_version, is_filled}

-- What the module uses of `@zanix/helpers`, and `atob`. `S` is the type of settings, `Seed` the
-- randomness of a call; `none` is a thrown error.
pub record Codec (S Seed : Type 0) : Type 1 where
  pub encrypt_type : S → EncryptType
  pub atob : String → Option String
  pub base_mask : Value → String → S → Option Value
  pub base_unmask : Value → String → S → Option Value
  pub base_encrypt : Seed → Value → String → Option Value
  pub base_decrypt : Value → String → Option Value
  pub generate_hash : Seed → S → String → String
  pub IsKeyPair : String → String → Type 0
  pub mask_lem :
      (v w : Value) (k : String) (s : S) → base_mask v k s ≡ some w → base_unmask w k s ≡ some v
  pub encrypt_lem :
      (r : Seed) (v w : Value) (k k' : String)
      → IsKeyPair k k'
      → base_encrypt r v k ≡ some w
      → base_decrypt w k' ≡ some v
  -- What is not empty does not become empty.
  pub mask_filled :
      (v w : Value) (k : String) (s : S)
      → base_mask v k s ≡ some w
      → is_filled v ≡ true
      → is_filled w ≡ true
  pub encrypt_filled :
      (r : Seed) (v w : Value) (k : String)
      → base_encrypt r v k ≡ some w
      → is_filled v ≡ true
      → is_filled w ≡ true

-- A value of the environment, if it is not empty.
abbrev pub filled_env : Option String → Option String
filled_env none = none
filled_env (some value) = ite (String_discrete value "") none (some value)

-- `a || b`
abbrev pub or_env : Option String → Option String → Option String
or_env none b = b
or_env (some a) b = some a

-- `getMaskSecret`, with `none` for the error; `normalizeSecretVersion` is `normalizeVersion`.
unfoldable pub get_mask_secret : Env → Option String → Option String
get_mask_secret env version =
    or_env (filled_env (env ("DATA_SECRET_KEY" ++ normalize_version version)))
      (filled_env (env ("DATA_AES_KEY" ++ normalize_version version)))

pub data Action : Type 0 where
  encrypt decrypt : Action

-- The name of the key of `getEncryptSecret`.
abbrev pub key_name : Action → EncryptType → String
key_name action symmetric = "DATA_AES_KEY"
key_name encrypt asymmetric = "DATA_RSA_PUB"
key_name decrypt asymmetric = "DATA_RSA_KEY"

-- `mask`, `encrypt` and `hash`.
pub data Strategy : Type 0 where
  masked encrypted hashed : Strategy

-- A version's entry of `versionConfigs`.
pub record Config (S : Type 0) : Type 0 where
  pub strategy : Strategy
  pub settings : S

pub record DataProtection (S : Type 0) : Type 0 where
  pub active_version : String
  pub version_configs : List (String × Config S)

-- `versionConfigs[version] || versionConfigs['default']`
unfoldable pub config_of : {S : Type 0} → DataProtection S → String → Option (Config S)
config_of p version = elim (JsMap.get String_discrete version p.version_configs) [
  | some config ↦ some config
  | none ↦ JsMap.get String_discrete "default" p.version_configs
]

-- What the getter returns: an object with `unmask`, `decrypt` or `verify`, or the value.
pub data Accessor (S : Type 0) : Type 0 where
  undefined : Accessor S
  plain : Value → Accessor S
  unmaskable decryptable verifiable : Value → S → String → Accessor S

pub data Processed : Type 0 where
  nothing : Processed
  stored : Value → Processed
  not_configured : Processed

-- `!value`, for what is not an array.
abbrev pub is_given : Value → Bool
is_given (one text) = ite (String_discrete text "") false true
is_given (many texts) = true

module _ {S Seed : Type 0} (c : Codec S Seed) (env : Env) where
  open c use {encrypt_type, atob, base_mask, base_unmask, base_encrypt, base_decrypt, generate_hash}

  -- `rsaKey && atob(rsaKey)`
  abbrev pub decoded : EncryptType → Option String → Option String
  decoded type none = none
  decoded symmetric (some key) = some key
  decoded asymmetric (some key) = filled_env (atob key)

  -- `getEncryptSecret`, with `none` for the error.
  unfoldable pub get_encrypt_secret : Action → EncryptType → Option String → Option String
  get_encrypt_secret action type version =
      decoded type (filled_env (env (key_name action type ++ normalize_version version)))

  -- The value that is returned if an error was caught and logged.
  abbrev pub or_input : Option Value → Value → Value
  or_input none input = input
  or_input (some value) input = value

  unfoldable pub mask : Value → S → Option String → Value
  mask input settings version =
      if is_filled input
      then elim (get_mask_secret env version) [
        | none ↦ input
        | some key ↦ elim (base_mask input key settings) [
          | none ↦ input
          | some value ↦ append_version value version
        ]
      ]
      else input

  unfoldable pub unmask : Value → S → Option String → Value
  unmask masked_input settings version =
      if is_filled masked_input
      then elim (get_mask_secret env version) [
        | none ↦ masked_input
        | some key ↦ or_input (base_unmask masked_input key settings) masked_input
      ]
      else masked_input

  unfoldable pub encrypt_value : Seed → Value → S → Option String → Value
  encrypt_value seed input settings version =
      if is_filled input
      then elim (get_encrypt_secret encrypt (encrypt_type settings) version) [
        | none ↦ input
        | some key ↦ elim (base_encrypt seed input key) [
          | none ↦ input
          | some value ↦ append_version value version
        ]
      ]
      else input

  unfoldable pub decrypt_value : Value → S → Option String → Value
  decrypt_value encrypted_input settings version =
      if is_filled encrypted_input
      then elim (get_encrypt_secret decrypt (encrypt_type settings) version) [
        | none ↦ encrypted_input
        | some key ↦ or_input (base_decrypt encrypted_input key) encrypted_input
      ]
      else encrypted_input

  abbrev pub create_hash_from : Seed → Value → S → Value
  create_hash_from seed (one text) settings = one (generate_hash seed settings text)
  create_hash_from seed (many texts) settings = many (map (generate_hash seed settings) texts)

  -- `dataProtectionSetterDefinition` of a value that is there; nothing is stored for an empty text.
  unfoldable pub data_protection_setter : Seed → DataProtection S → Value → Processed
  data_protection_setter seed configs value =
      if is_given value
      then elim (config_of configs configs.active_version) [
        | none ↦ not_configured
        | some config ↦ elim config.strategy [
          | masked ↦ stored (mask value config.settings (some configs.active_version))
          | encrypted ↦
              stored (encrypt_value seed value config.settings (some configs.active_version))
          | hashed ↦ stored (create_hash_from seed value config.settings)
        ]
      ]
      else nothing

  abbrev pub accessor : Strategy → Value → S → String → Accessor S
  accessor masked message settings version = unmaskable message settings version
  accessor encrypted message settings version = decryptable message settings version
  accessor hashed message settings version = verifiable message settings version

  -- `dataProtectionGetterDefinition` of a value that is there; an empty array has no version to
  -- extract and gives nothing.
  unfoldable pub data_protection_getter : DataProtection S → Value → Accessor S
  data_protection_getter config value =
      if is_given value
      then elim (extract_version value) [
        | none ↦ undefined
        | some (message, version) ↦ elim (config_of config version) [
          | none ↦ plain value
          | some variants ↦ accessor variants.strategy message variants.settings version
        ]
      ]
      else undefined
