-- ===== src/Mongo/Filter/Conditions.antt =====
-- A condition of a protected filter on the value as it is stored.
use datamaster.Prelude.{
  ◌≡◌, refl, sym, ap, ◌∙◌, Bool, true, false, Option, none, some, String, Option-cases, ◌⊎◌, inl,
  inr,
}
use datamaster.Storage.Encryption.{Env}
use datamaster.Protection.Version.{Value, one, many, is_filled}
use datamaster.Protection.Values.{
  Codec, DataProtection, Strategy, masked, encrypted, hashed, config_of, mask, Processed, stored,
  not_configured, data_protection_setter,
}
use datamaster.Protection.RoundTrip.{setter_masked}
use datamaster.Mongo.Filter.{
  Condition, nothing, plain, only_eq, only_in, other, Attempt, done, thrown, and_then,
  masked_condition, settings_of_mask, mask_settings, masked_or_unsafe, protect_condition,
}
use datamaster.Mongo.Filter.Meaning.{meets}
use datamaster.Mongo.Filter.Masks.{IsReady, equals-masked, is_one_of-masked}

pub and_then-done :
    {A B : Type 0} (r : Attempt A) (next : A → Attempt B) (b : B)
    → and_then r next ≡ done b
    → (a : A) × ((r ≡ done a) × (next a ≡ done b))
and_then-done (done a) next b e = (a, (refl, e))
and_then-done (thrown x) next b e = absurd (cc)

settings_of_mask-some :
    {S : Type 0} (strategy : Strategy) (settings settings' : S)
    → settings_of_mask strategy settings ≡ some settings'
    → (strategy ≡ masked) × (settings ≡ settings')
settings_of_mask-some masked settings settings' e = (refl, cc)
settings_of_mask-some encrypted settings settings' e = absurd (cc)
settings_of_mask-some hashed settings settings' e = absurd (cc)

Strategy-cases : (s : Strategy) → (s ≡ masked) ⊎ ((s ≡ encrypted) ⊎ (s ≡ hashed))
Strategy-cases masked = inl refl
Strategy-cases encrypted = inr (inl refl)
Strategy-cases hashed = inr (inr refl)

pub done-injective : {A : Type 0} {a b : A} → done a ≡ done b → a ≡ b
done-injective e = cc

-- What the setter makes of a value in the database; an error leaves the document as it is.
abbrev pub at_rest : Value → Processed → Option Value
at_rest v Processed.nothing = none
at_rest v (stored w) = some w
at_rest v not_configured = some v

-- A missing value, or a text that is not empty.
abbrev pub IsText : Option Value → Type 0
IsText none = Unit
IsText (some v) = (text : String) × ((v ≡ one text) × (is_filled (one text) ≡ true))

module _ {S Seed : Type 0} (c : Codec S Seed) (env : Env) (seed : Seed)
    (protection : String → DataProtection S) (operator : String → Option Value → Bool) where
  abbrev pub stored_value : String → Option Value → Option Value
  stored_value path none = none
  stored_value path (some v) = at_rest v (data_protection_setter c env seed (protection path) v)

  abbrev pub AreReady : String → Type 0
  AreReady path =
      (settings : S)
      → mask_settings (config_of (protection path) (protection path).active_version) ≡ some settings
      → IsReady c env (protection path).active_version settings

  abbrev masked_value : String → S → String → Value
  masked_value path settings text =
      mask c env (one text) settings (some (protection path).active_version)

  stored_value-masked :
      (path : String) (settings : S) (text : String)
      → mask_settings (config_of (protection path) (protection path).active_version) ≡ some settings
      → is_filled (one text) ≡ true
      → stored_value path (some (one text))
        ≡ some (mask c env (one text) settings (some (protection path).active_version))
  stored_value-masked path settings text e h =
      let configs = protection path in
      elim (Option-cases (config_of configs configs.active_version)) [
        | inl missing ↦ let e' = (sym (ap mask_settings missing) ∙ e) in absurd (cc)
        | inr (config, known) ↦
            let (is, same) =
              settings_of_mask-some config.strategy config.settings settings
                (sym (ap mask_settings known) ∙ e) in
            ap (at_rest (one text)) (setter_masked c env configs config known seed (one text) is h)
            ∙ ap (λ s. some (mask c env (one text) s (some configs.active_version))) same
      ]

  meets-nothing :
      (path text : String)
      → is_filled (one text) ≡ true
      → meets operator nothing (stored_value path (some (one text))) ≡ false
  unfolding data_protection_setter
  meets-nothing path text h =
      let configs = protection path in
      elim (Option-cases (config_of configs configs.active_version)) [
        | inl missing ↦ rw (h, missing) refl
        | inr (config, known) ↦ elim (Strategy-cases config.strategy) [
          | inl is ↦ rw (h, known, is) refl
          | inr (inl is) ↦ rw (h, known, is) refl
          | inr (inr is) ↦ rw (h, known, is) refl
        ]
      ]

  -- `masked_condition` of a condition on a text.
  meets-masked_condition :
      (path : String) (settings : S) (asked asked' : Condition) (text : String)
      → mask_settings (config_of (protection path) (protection path).active_version) ≡ some settings
      → IsReady c env (protection path).active_version settings
      → is_filled (one text) ≡ true
      → masked_condition c env protection path settings asked ≡ done asked'
      → meets operator asked' (some (masked_value path settings text))
        ≡ meets operator asked (some (one text))
  unfolding masked_condition
  meets-masked_condition path settings nothing asked' text known ready h e =
      ap (λ a. meets operator a (some (masked_value path settings text))) (sym (done-injective e))
  meets-masked_condition path settings (plain (one t)) asked' text known ready h e =
      ap (λ a. meets operator a (some (masked_value path settings text))) (sym (done-injective e))
      ∙ equals-masked c env (protection path).active_version settings ready text (one t) h
  meets-masked_condition path settings (plain (many l)) asked' text known ready h e = absurd (cc)
  meets-masked_condition path settings (only_eq (one t)) asked' text known ready h e =
      ap (λ a. meets operator a (some (masked_value path settings text))) (sym (done-injective e))
      ∙ equals-masked c env (protection path).active_version settings ready text (one t) h
  meets-masked_condition path settings (only_eq (many l)) asked' text known ready h e = absurd (cc)
  meets-masked_condition path settings (only_in entries) asked' text known ready h e =
      ap (λ a. meets operator a (some (masked_value path settings text))) (sym (done-injective e))
      ∙ is_one_of-masked c env (protection path).active_version settings ready text entries h
  meets-masked_condition path settings (other t) asked' text known ready h e = absurd (cc)

  meets-masked_or_unsafe :
      (path : String) (asked asked' : Condition) (text : String)
      → AreReady path
      → is_filled (one text) ≡ true
      → masked_or_unsafe c env protection path
          (mask_settings (config_of (protection path) (protection path).active_version))
          asked
        ≡ done asked'
      → meets operator asked' (stored_value path (some (one text)))
        ≡ meets operator asked (some (one text))
  meets-masked_or_unsafe path asked asked' text ready h e =
      elim (Option-cases
        (mask_settings (config_of (protection path) (protection path).active_version))) [
          | inl none_there ↦
              let e' =
                (sym (ap (λ o. masked_or_unsafe c env protection path o asked) none_there) ∙ e) in
              absurd (cc)
          | inr (settings, known) ↦
              ap (meets operator asked') (stored_value-masked path settings text known h)
              ∙ meets-masked_condition path settings asked asked' text known (ready settings known)
                  h (sym (ap (λ o. masked_or_unsafe c env protection path o asked) known) ∙ e)
        ]

  absent-masked_condition :
      (path : String) (settings : S) (asked asked' : Condition)
      → masked_condition c env protection path settings asked ≡ done asked'
      → meets operator asked' none ≡ meets operator asked none
  unfolding masked_condition
  absent-masked_condition path settings nothing asked' e =
      ap (λ a. meets operator a none) (sym (done-injective e))
  absent-masked_condition path settings (plain (one t)) asked' e =
      ap (λ a. meets operator a none) (sym (done-injective e))
  absent-masked_condition path settings (plain (many l)) asked' e = absurd (cc)
  absent-masked_condition path settings (only_eq (one t)) asked' e =
      ap (λ a. meets operator a none) (sym (done-injective e))
  absent-masked_condition path settings (only_eq (many l)) asked' e = absurd (cc)
  absent-masked_condition path settings (only_in entries) asked' e =
      ap (λ a. meets operator a none) (sym (done-injective e))
  absent-masked_condition path settings (other t) asked' e = absurd (cc)

  absent-masked_or_unsafe :
      (path : String) (settings : Option S) (asked asked' : Condition)
      → masked_or_unsafe c env protection path settings asked ≡ done asked'
      → meets operator asked' none ≡ meets operator asked none
  absent-masked_or_unsafe path none asked asked' e = absurd (cc)
  absent-masked_or_unsafe path (some settings) asked asked' e =
      absent-masked_condition path settings asked asked' e

  meets-value :
      (path : String) (asked asked' : Condition) (value : Option Value)
      → AreReady path
      → IsText value
      → masked_or_unsafe c env protection path
          (mask_settings (config_of (protection path) (protection path).active_version))
          asked
        ≡ done asked'
      → meets operator asked' (stored_value path value) ≡ meets operator asked value
  meets-value path asked asked' none ready text e =
      absent-masked_or_unsafe path
        (mask_settings (config_of (protection path) (protection path).active_version)) asked asked'
        e
  meets-value path asked asked' (some v) ready (text, (is, h)) e =
      ap (λ w. meets operator asked' (stored_value path (some w))) is
      ∙ meets-masked_or_unsafe path asked asked' text ready h e
      ∙ ap (λ w. meets operator asked (some w)) (sym is)

  still_nothing :
      (path : String) (value : Option Value)
      → IsText value
      → meets operator nothing (stored_value path value) ≡ meets operator nothing value
  still_nothing path none text = refl
  still_nothing path (some v) (text, (is, h)) =
      ap (λ w. meets operator nothing (stored_value path (some w))) is ∙ meets-nothing path text h

  pub meets-protect_condition :
      (path : String) (asked asked' : Condition) (value : Option Value)
      → AreReady path
      → IsText value
      → protect_condition c env protection path asked ≡ done asked'
      → meets operator asked' (stored_value path value) ≡ meets operator asked value
  unfolding protect_condition
  meets-protect_condition path nothing asked' value ready text e =
      ap (λ a. meets operator a (stored_value path value)) (sym (done-injective e))
      ∙ still_nothing path value text
  meets-protect_condition path (plain asked) asked' value ready text e =
      meets-value path (plain asked) asked' value ready text e
  meets-protect_condition path (only_eq asked) asked' value ready text e =
      meets-value path (only_eq asked) asked' value ready text e
  meets-protect_condition path (only_in asked) asked' value ready text e =
      meets-value path (only_in asked) asked' value ready text e
  meets-protect_condition path (other asked) asked' value ready text e =
      meets-value path (other asked) asked' value ready text e
