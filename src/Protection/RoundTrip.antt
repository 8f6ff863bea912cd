-- ===== src/Protection/RoundTrip.antt =====
-- What the setter of a protected field stores, the getter's object turns back into the value.
use Prim.Native.String.{◌++◌}
use text.Mathlib.TextLemmas.{cons-append}
use datamaster.Prelude.{
  ◌≡◌, ◌≢◌, refl, sym, ap, ◌∙◌, true, false, Option, none, some, [], ◌∷◌, String, String_discrete,
  if_neg,
}
use datamaster.Storage.Encryption.{Env}
use datamaster.Protection.Version.{
  Value, one, many, append_version, is_filled, split_version, extract_version-append_version,
  prefixed,
}
use datamaster.Protection.Values.{
  Codec, Config, DataProtection, masked, encrypted, config_of, unmaskable, decryptable, accessor,
  stored, is_given, get_mask_secret, get_encrypt_secret, encrypt, decrypt, mask, unmask,
  encrypt_value, decrypt_value, data_protection_setter, data_protection_getter,
}

-- A version whose name can be read back.
pub record IsPlain (version : String) : Type 0 where
  pub nonempty : version ≢ ""
  pub no_colon : split_version version ≡ none

pub append-nonempty : (version text : String) → version ≢ "" → version ++ text ≢ ""
append-nonempty String.[] text ne = absurd (ne refl)
append-nonempty (String.◌∷◌ c version) text ne =
    λ e. let e' = sym (cons-append c version text) ∙ e in absurd (cc)

is_filled-many : (v : Value) → is_filled v ≡ true → v ≢ many []
is_filled-many (one text) h e = absurd (cc)
is_filled-many (many []) h e = absurd (cc)
is_filled-many (many (x ∷ l)) h e = absurd (cc)

is_filled-given : (v : Value) → is_filled v ≡ true → is_given v ≡ true
is_filled-given (one text) h = h
is_filled-given (many l) h = refl

appended-given :
    (v : Value) (version : String)
    → version ≢ ""
    → is_given (append_version v (some version)) ≡ true
unfolding append_version
appended-given (one text) version ne =
    if_neg (String_discrete _ "")
      (λ e. append-nonempty version (":" ++ text) ne (sym (prefixed version text ne) ∙ e)) false
      true
appended-given (many []) version ne = refl
appended-given (many (x ∷ l)) version ne = refl

module _ {S Seed : Type 0} (c : Codec S Seed) (env : Env) where
  pub mask_step :
      (value w : Value) (settings : S) (version : Option String) (key : String)
      → is_filled value ≡ true
      → get_mask_secret env version ≡ some key
      → c.base_mask value key settings ≡ some w
      → mask c env value settings version ≡ append_version w version
  unfolding mask
  mask_step value w settings version key h k m = rw (h, k, m) refl

  unmask_step :
      (value w : Value) (settings : S) (version : Option String) (key : String)
      → is_filled value ≡ true
      → get_mask_secret env version ≡ some key
      → c.base_mask value key settings ≡ some w
      → unmask c env w settings version ≡ value
  unfolding unmask
  unmask_step value w settings version key h k m =
      let f = c.mask_filled value w key settings m h in
      let u = c.mask_lem value w key settings m in rw (f, k, u) refl

  encrypt_step :
      (seed : Seed) (value w : Value) (settings : S) (version : Option String) (key : String)
      → is_filled value ≡ true
      → get_encrypt_secret c env encrypt (c.encrypt_type settings) version ≡ some key
      → c.base_encrypt seed value key ≡ some w
      → encrypt_value c env seed value settings version ≡ append_version w version
  unfolding encrypt_value
  encrypt_step seed value w settings version key h k m = rw (h, k, m) refl

  decrypt_step :
      (seed : Seed) (value w : Value) (settings : S) (version : Option String) (key key' : String)
      → is_filled value ≡ true
      → get_encrypt_secret c env decrypt (c.encrypt_type settings) version ≡ some key'
      → c.IsKeyPair key key'
      → c.base_encrypt seed value key ≡ some w
      → decrypt_value c env w settings version ≡ value
  unfolding decrypt_value
  decrypt_step seed value w settings version key key' h k pair m =
      let f = c.encrypt_filled seed value w key m h in
      let u = c.encrypt_lem seed value w key key' pair m in rw (f, k, u) refl

  module _ (configs : DataProtection S) (config : Config S)
      (known : config_of configs configs.active_version ≡ some config) where
    pub setter_masked :
        (seed : Seed) (value : Value)
        → config.strategy ≡ masked
        → is_filled value ≡ true
        → data_protection_setter c env seed configs value
          ≡ stored (mask c env value config.settings (some configs.active_version))
    unfolding data_protection_setter
    setter_masked seed value is h = rw (is_filled-given value h, known, is) refl

    setter_encrypted :
        (seed : Seed) (value : Value)
        → config.strategy ≡ encrypted
        → is_filled value ≡ true
        → data_protection_setter c env seed configs value
          ≡ stored (encrypt_value c env seed value config.settings (some configs.active_version))
    unfolding data_protection_setter
    setter_encrypted seed value is h = rw (is_filled-given value h, known, is) refl

    -- What the getter finds under the active version.
    getter_step :
        (w : Value)
        → IsPlain configs.active_version
        → is_filled w ≡ true
        → data_protection_getter c env configs (append_version w (some configs.active_version))
          ≡ accessor c env config.strategy w config.settings configs.active_version
    unfolding data_protection_getter
    getter_step w plain f =
        let given = appended-given w configs.active_version plain.nonempty in
        let read =
          extract_version-append_version w configs.active_version plain.nonempty plain.no_colon
            (is_filled-many w f) in
        rw (given, read, known) refl

    -- A field that is protected by a mask, with an active version that is not empty and has no
    -- colon, with a configuration for it and a key in the environment, for a value that is not
    -- empty and that the mask accepts: the setter stores the masked value with the version in
    -- front; the getter reads that as an object for the masked value, with the same settings and
    -- the same version; and unmasking it gives the value.
    pub data_protection_getter-setter_masked :
        (seed : Seed) (value w : Value) (key : String)
        → IsPlain configs.active_version
        → config.strategy ≡ masked
        → is_filled value ≡ true
        → get_mask_secret env (some configs.active_version) ≡ some key
        → c.base_mask value key config.settings ≡ some w
        → (data_protection_setter c env seed configs value
            ≡ stored (append_version w (some configs.active_version)))
          × (data_protection_getter c env configs (append_version w (some configs.active_version))
              ≡ unmaskable w config.settings configs.active_version)
          × (unmask c env w config.settings (some configs.active_version) ≡ value)
    data_protection_getter-setter_masked seed value w key plain is h k m =
        let version = some configs.active_version in
        (
          setter_masked seed value is h
              ∙ ap stored (mask_step value w config.settings version key h k m),
          getter_step w plain (c.mask_filled value w key config.settings m h)
              ∙ ap (λ s. accessor c env s w config.settings configs.active_version) is,
          unmask_step value w config.settings version key h k m,
        )

    -- A field that is protected by encryption, with an active version that is not empty and has no
    -- colon, with a configuration for it and matching keys in the environment, for a value that is
    -- not empty and that the cipher accepts: the setter stores the encrypted value with the version
    -- in front; the getter reads that as an object for the encrypted value, with the same settings
    -- and the same version; and decrypting it gives the value.
    pub data_protection_getter-setter_encrypted :
        (seed : Seed) (value w : Value) (key key' : String)
        → IsPlain configs.active_version
        → config.strategy ≡ encrypted
        → is_filled value ≡ true
        → get_encrypt_secret c env encrypt
            (c.encrypt_type config.settings)
            (some configs.active_version)
          ≡ some key
        → get_encrypt_secret c env decrypt
            (c.encrypt_type config.settings)
            (some configs.active_version)
          ≡ some key'
        → c.IsKeyPair key key'
        → c.base_encrypt seed value key ≡ some w
        → (data_protection_setter c env seed configs value
            ≡ stored (append_version w (some configs.active_version)))
          × (data_protection_getter c env configs (append_version w (some configs.active_version))
              ≡ decryptable w config.settings configs.active_version)
          × (decrypt_value c env w config.settings (some configs.active_version) ≡ value)
    data_protection_getter-setter_encrypted seed value w key key' plain is h k k' pair m =
        let version = some configs.active_version in
        (
          setter_encrypted seed value is h
              ∙ ap stored (encrypt_step seed value w config.settings version key h k m),
          getter_step w plain (c.encrypt_filled seed value w key m h)
              ∙ ap (λ s. accessor c env s w config.settings configs.active_version) is,
          decrypt_step seed value w config.settings version key key' h k' pair m,
        )
