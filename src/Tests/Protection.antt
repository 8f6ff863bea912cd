-- ===== src/Tests/Protection.antt =====
-- Protected fields on small inputs: a mask and a cipher that leave texts as they are.
use datamaster.Prelude.{◌≡◌, ◌≢◌, refl, sym, true, none, some, [], ◌∷◌, String_discrete, text_ne}
use datamaster.JsMap
use datamaster.Storage.Encryption.{Env, EncryptType, symmetric}
use datamaster.Protection.Version.{Value, many, append_version, is_filled, split_version}
use datamaster.Protection.Values.{
  Codec, Config, DataProtection, masked, encrypted, config_of, unmaskable, decryptable, stored,
  get_mask_secret, get_encrypt_secret, encrypt, decrypt, unmask, decrypt_value,
  data_protection_setter, data_protection_getter,
}
use datamaster.Protection.RoundTrip.{
  IsPlain, data_protection_getter-setter_masked, data_protection_getter-setter_encrypted,
}

unfoldable pub codec : Codec EncryptType Unit
codec = record {
  encrypt_type = λ s. s;
  atob = λ t. some t;
  base_mask = λ v k s. some v;
  base_unmask = λ w k s. some w;
  base_encrypt = λ r v k. some v;
  base_decrypt = λ w k. some w;
  generate_hash = λ r s t. t;
  IsKeyPair = λ k k'. Unit;
  mask_lem = λ v w k s e. sym e;
  encrypt_lem = λ r v w k k' pair e. sym e;
  mask_filled = λ v w k s e h. let same : v ≡ w = cc in rw (← same) h;
  encrypt_filled = λ r v w k e h. let same : v ≡ w = cc in rw (← same) h;
}

abbrev pub env : Env
env name = some "secret"

abbrev both : Value
both = many ("ada" ∷ "ben" ∷ [])

abbrev pub masking : Config EncryptType
masking = record { strategy = masked; settings = symmetric }

abbrev ciphering : Config EncryptType
ciphering = record { strategy = encrypted; settings = symmetric }

abbrev pub mask_policy : DataProtection EncryptType
mask_policy = record {
  active_version = "v2";
  version_configs = ("v2", masking) ∷ ("default", ciphering) ∷ [];
}

abbrev cipher_policy : DataProtection EncryptType
cipher_policy = record {
  active_version = "v2";
  version_configs = ("v1", masking) ∷ ("default", ciphering) ∷ [];
}

v2-no_colon : split_version "v2" ≡ none
unfolding split_version
v2-no_colon = refl

pub v2-IsPlain : IsPlain "v2"
v2-IsPlain = record { nonempty = text_ne "v2" "" refl; no_colon = v2-no_colon }

both-is_filled : is_filled both ≡ true
unfolding String_discrete
both-is_filled = refl

config_of-mask : config_of mask_policy "v2" ≡ some masking
unfolding config_of String_discrete datamaster.JsMap.get
config_of-mask = refl

-- The default is the fallback.
config_of-cipher : config_of cipher_policy "v2" ≡ some ciphering
unfolding config_of String_discrete datamaster.JsMap.get
config_of-cipher = refl

pub mask_secret : get_mask_secret env (some "v2") ≡ some "secret"
unfolding get_mask_secret String_discrete
mask_secret = refl

encrypt_secret : get_encrypt_secret codec env encrypt symmetric (some "v2") ≡ some "secret"
unfolding get_encrypt_secret String_discrete
encrypt_secret = refl

decrypt_secret : get_encrypt_secret codec env decrypt symmetric (some "v2") ≡ some "secret"
unfolding get_encrypt_secret String_discrete
decrypt_secret = refl

both-not_empty : both ≢ many []
both-not_empty e = absurd (cc)

data_protection_getter-setter_masked_example :
    (data_protection_setter codec env tt mask_policy both
      ≡ stored (append_version both (some "v2")))
    × (data_protection_getter codec env mask_policy (append_version both (some "v2"))
        ≡ unmaskable both symmetric "v2")
    × (unmask codec env both symmetric (some "v2") ≡ both)
unfolding codec
data_protection_getter-setter_masked_example =
    data_protection_getter-setter_masked codec env mask_policy masking config_of-mask tt both both
      "secret" v2-IsPlain refl both-is_filled mask_secret refl

data_protection_getter-setter_encrypted_example :
    (data_protection_setter codec env tt cipher_policy both
      ≡ stored (append_version both (some "v2")))
    × (data_protection_getter codec env cipher_policy (append_version both (some "v2"))
        ≡ decryptable both symmetric "v2")
    × (decrypt_value codec env both symmetric (some "v2") ≡ both)
unfolding codec
data_protection_getter-setter_encrypted_example =
    data_protection_getter-setter_encrypted codec env cipher_policy ciphering config_of-cipher tt
      both both "secret" "secret" v2-IsPlain refl both-is_filled encrypt_secret decrypt_secret tt
      refl
